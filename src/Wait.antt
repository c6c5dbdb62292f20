-- ===== src/Wait.antt =====
-- src/wait.rs, src/platform/notify.rs and the waiting receives of src/platform/subscription.rs.
pub mod Strategy
pub mod Blocking
mod Terminates
mod Wakes
mod Tests
