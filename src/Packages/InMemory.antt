-- ===== src/Packages/InMemory.antt =====
-- Concrete packages that meet the interfaces: a database as an association list, a bitmap as a
-- list of numbers. The tests run on them.
mod Tables
mod Sets
pub use Tables.{table-Reliable}
pub use Sets.{has-keep}
unfoldable pub use Tables.{Table, table_db, lookup, inside, without, visible}
unfoldable pub use Sets.{list_bitmaps, has, keep, empty}
