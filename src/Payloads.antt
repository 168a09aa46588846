-- ===== src/Payloads.antt =====
-- pebblestore/payload_ops.go: the payloads of the entities.
pub mod Record
pub mod Operations
pub mod Keys
pub mod Consistent
pub mod Fresh
pub mod Written
pub mod Reads
pub mod Upserts
pub mod Deletes
mod Tests
