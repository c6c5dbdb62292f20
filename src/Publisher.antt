-- ===== src/Publisher.antt =====
-- src/platform/shm.rs: the handles of a publisher and of a subscriber on a region.
pub mod Topics
pub mod Blocks
pub mod Files
pub mod Create
pub mod Open
mod Created
mod Rings
pub mod Reconnect
mod Initial
mod First
mod Kept
pub mod Received
mod Validated
mod Locks
mod CreateTests
pub mod Publish
pub mod Registered
pub mod Pinned
pub mod Refill
pub mod Abandoned
mod Tests
