-- ===== src/Channel.antt =====
-- src/platform/channel.rs: two regions, one for each direction.
pub mod Endpoint
mod Early
mod Tests
