-- ===== src/Query.antt =====
-- query/: the syntax of queries and its normal form
pub mod Language
pub mod Invert
pub mod Ast
pub mod Depth
pub mod Normalize
pub mod Meaning
mod Tests
