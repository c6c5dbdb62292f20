-- ===== src/Loan.antt =====
-- src/platform/loan.rs: the publisher's writable views of a block, and the structured layout that
-- `read_array` of src/platform/subscription.rs reads back.
mod Tests
pub mod Write
pub mod Copy
pub mod Structured
pub mod Deliver
