-- ===== src/Data.antt =====
-- Go's values: byte strings, maps, 64-bit integers, and the parts of its standard library that
-- the program computes with.
pub mod Bytes
pub mod GoMap
pub mod Int64
pub mod Decimal
pub mod Hex
pub mod Base64
pub mod Sort
