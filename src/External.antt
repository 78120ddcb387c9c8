-- ===== src/External.antt =====
-- The third-party crates that the program calls, as parameters: a record of operations for each,
-- and a record of the documented laws that proofs may use.
pub mod Cobs
pub mod Crc
pub mod Heapless
pub mod Postcard
pub mod Files
pub mod Paths
pub mod Sinks
pub mod Inputs
