-- ===== src/PodBus.antt =====
-- src/platform/pod_bus.rs: the broadcast ring for plain-old-data values, with one publisher and any
-- number of subscribers.
mod Tests
pub mod State
pub mod Publish
pub mod Subscribe
pub mod Create
pub mod Connect
pub mod History
pub mod Receive
pub mod Seqlock
pub mod Torn
pub mod Scan
pub mod Lossless
pub mod NoLoss
pub mod Started
pub mod Reconnect
pub mod Claims
pub mod Joined
mod CreateTests
