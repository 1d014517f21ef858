-- ===== src/Core/Processor.antt =====
-- src/hokora/core/message.py: the pipeline from an envelope to a row. `Envelope` has the state and the
-- errors, `Checks` the permission checks, `Handlers` the handlers of each type, `Ingest` the pipeline.
pub mod Envelope
pub mod Checks
pub mod Handlers
pub mod Reacting
pub mod Ingest
pub mod Rows
pub mod Sequences
pub mod Checked
pub mod Writes
pub mod Decomposed
pub mod Ingested
pub mod Secrecy
pub mod Numbering
pub mod Boundaries
pub mod Reactions
pub mod Restriction
pub mod Bypass
mod Tests
