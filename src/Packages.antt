-- ===== src/Packages.antt =====
-- The packages outside the repository that the store calls, as interfaces: what they offer and
-- the documented behaviour that the code relies on.
pub mod PebbleDb
pub mod Roaring64
pub mod Json
pub mod InMemory
