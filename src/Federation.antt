-- ===== src/Federation.antt =====
-- src/hokora/federation: frames and keys of the forward-secret links between nodes.
pub mod EpochWire
pub mod EpochCrypto
pub mod EpochManager
pub mod Mirror
pub mod Auth
pub mod PushMessages
pub mod MirrorIngestor
pub mod Arrivals
pub mod Pusher
mod Tests
