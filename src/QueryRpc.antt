-- ===== src/QueryRpc.antt =====
-- pebblestore/query_rpc.go: the options of a query, the entities of its response, and its pages.
pub mod Options
pub mod Entity
pub mod Pages
pub mod Query
pub mod Descending
pub mod Filled
pub mod Paging
pub mod Endless
pub mod Answered
pub mod Sample
mod Tests
