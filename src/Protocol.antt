-- ===== src/Protocol.antt =====
-- src/hokora/protocol: live delivery to connected clients.
pub mod ZombieLinkBuffer
pub mod Live
pub mod Session
pub mod ChannelRead
pub mod Wire
