-- ===== src/System.antt =====
-- The three reconcilers over one cluster and one databasus, in any order and interleaved with
-- whatever else acts there.
pub mod Objects
pub mod Release
pub mod Authority
pub mod Confirm
pub mod Lifecycle
pub mod Deletion
pub mod Once
pub mod Origin
