-- ===== src/Examples.antt =====
-- Concrete crates, and the runs of the theorems on them.
pub mod Stuffing
pub mod Checksums
pub mod Containers
pub mod Serialiser
pub mod Values
pub mod Wire
pub mod Hosting
pub mod Archive
pub mod Logging
pub mod Overflow
pub mod Sinking
pub mod Answering
pub mod Running
pub mod Generation
pub mod Store
pub mod Tools
pub mod Decoding
pub mod Disk
