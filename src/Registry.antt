-- ===== src/Registry.antt =====
-- src/platform/registry.rs: the global registry by which subscribers find topics.
pub mod Text
pub mod State
pub mod Update
pub mod Discover
pub mod Open
mod Strings
mod Clear
mod Matching
mod Found
mod Count
mod Reopen
mod Tests
