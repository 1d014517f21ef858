-- ===== src/Core.antt =====
-- src/hokora/core: sequence numbers, the pipeline that messages pass on their way into the tables, and
-- the cursors of mirrors.
pub mod Sequencer
pub mod Processor
pub mod MirrorManager
