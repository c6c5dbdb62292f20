-- ===== src/Stream.antt =====
-- src/platform/subscription.rs: the subscription to one topic and the guards that it returns. What
-- other processes do while a receive runs is given at each point where the code reads shared memory.
mod Tests
pub mod Receive
pub mod Safety
pub mod History
pub mod Append
pub mod Fixture
