-- ===== src/Index.antt =====
-- The bitmap index of the database.
pub mod Bitmaps
pub mod Values
pub mod Attributes
pub mod Layouts
