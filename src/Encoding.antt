-- ===== src/Encoding.antt =====
-- pebblestore/encoding.go: the keys of the database, as byte strings.
pub mod Slices
pub mod Integers
pub mod Keys
pub mod Ranges
mod Tests
