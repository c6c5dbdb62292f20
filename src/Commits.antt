-- ===== src/Commits.antt =====
-- Several publishers that commit to the ring of one topic at the same time: `commit_to_ring` of
-- src/protocol/region.rs, a shared access at a time.
pub mod Protocol
pub mod Steps
mod Exclusion
mod Refines
mod Sound
mod Past
mod Untorn
mod Alone
mod Tests
