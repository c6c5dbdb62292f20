-- ===== src/Region.antt =====
-- src/protocol/region.rs: the state behind a mapped region and the operations on it. The children
-- define the state, the block pool and the ring, and prove what each operation does.
mod Tests
pub mod Fixture
pub mod State
pub mod Pool
pub mod FreeList
pub mod Init
pub mod Contention
pub mod ContendedFree
pub mod Ring
pub mod Commit
