-- ===== src/Cache.antt =====
-- pebblestore/bitmap_cache.go: the bitmaps that a batch of blocks has changed and not yet written.
-- A Go map of pointers is an association list with one entry for each key; the reader and the
-- batch are the same indexed batch.
pub mod Overlay
pub mod Changes
pub mod Distinct
pub mod Flush
mod Tests
use pebble_bitmap_store_note.Prelude.{
  ℕ, Option, none, some, [], ◌∷◌, Bytes, bytes_eq, Result, ok, ◌>>=◌, if◌then◌else◌,
}
use pebble_bitmap_store_note.Packages.PebbleDb.{Pebble}
use pebble_bitmap_store_note.Packages.Roaring64.{Roaring}
use pebble_bitmap_store_note.Index.Bitmaps.{
  get_string_bitmap, set_string_bitmap, delete_string_bitmap, get_numeric_bitmap,
  set_numeric_bitmap, delete_numeric_bitmap,
}
use pebble_bitmap_store_note.Cache.Overlay.{Entries, find, put, same_number}

pub record BitmapCache (Bitmap : Type 0) : Type 0 where
  pub string_bitmaps : Entries Bytes Bitmap
  pub numeric_bitmaps : Entries ℕ Bitmap

-- The entry of a map, or what `read` gives if there is none.
unfoldable pub cached_or : {Bitmap : Type 0} → Option Bitmap → Result Bitmap → Result Bitmap
cached_or none read = read
cached_or (some b) read = ok b

module _ (p : Pebble) (r : Roaring) where
  open p use {Db}
  open r use {Bitmap, add, remove, is_empty, run_optimize}

  abbrev pub new_bitmap_cache : BitmapCache Bitmap
  new_bitmap_cache = record { string_bitmaps = []; numeric_bitmaps = [] }

  unfoldable pub add_to_string_bitmap :
      Db → BitmapCache Bitmap → Bytes → Bytes → ℕ → Result (BitmapCache Bitmap)
  unfolding cached_or
  add_to_string_bitmap reader c name value id = do
    bitmap ←
        cached_or (find bytes_eq c.string_bitmaps name value)
          (get_string_bitmap p r reader name value)
    ok (record c { string_bitmaps = put bytes_eq c.string_bitmaps name value (add bitmap id) })

  unfoldable pub remove_from_string_bitmap :
      Db → BitmapCache Bitmap → Bytes → Bytes → ℕ → Result (BitmapCache Bitmap)
  unfolding cached_or
  remove_from_string_bitmap reader c name value id = do
    bitmap ←
        cached_or (find bytes_eq c.string_bitmaps name value)
          (get_string_bitmap p r reader name value)
    ok (record c { string_bitmaps = put bytes_eq c.string_bitmaps name value (remove bitmap id) })

  unfoldable pub add_to_numeric_bitmap :
      Db → BitmapCache Bitmap → Bytes → ℕ → ℕ → Result (BitmapCache Bitmap)
  unfolding cached_or
  add_to_numeric_bitmap reader c name value id = do
    bitmap ←
        cached_or (find same_number c.numeric_bitmaps name value)
          (get_numeric_bitmap p r reader name value)
    ok (record c { numeric_bitmaps = put same_number c.numeric_bitmaps name value (add bitmap id) })

  unfoldable pub remove_from_numeric_bitmap :
      Db → BitmapCache Bitmap → Bytes → ℕ → ℕ → Result (BitmapCache Bitmap)
  unfolding cached_or
  remove_from_numeric_bitmap reader c name value id = do
    bitmap ←
        cached_or (find same_number c.numeric_bitmaps name value)
          (get_numeric_bitmap p r reader name value)
    ok (record c {
      numeric_bitmaps = put same_number c.numeric_bitmaps name value (remove bitmap id);
    })

  unfoldable pub flush_string_bitmaps : Entries Bytes Bitmap → Db → Result Db
  flush_string_bitmaps [] batch = ok batch
  flush_string_bitmaps ((name, value, bitmap) ∷ rest) batch = do
    batch' ←
        if is_empty bitmap
        then delete_string_bitmap p r batch name value
        else set_string_bitmap p r batch name value (run_optimize bitmap)
    flush_string_bitmaps rest batch'

  unfoldable pub flush_numeric_bitmaps : Entries ℕ Bitmap → Db → Result Db
  flush_numeric_bitmaps [] batch = ok batch
  flush_numeric_bitmaps ((name, value, bitmap) ∷ rest) batch = do
    batch' ←
        if is_empty bitmap
        then delete_numeric_bitmap p r batch name value
        else set_numeric_bitmap p r batch name value (run_optimize bitmap)
    flush_numeric_bitmaps rest batch'

  -- The errgroup optimises every bitmap that is not empty before the first is written.
  unfoldable pub flush : BitmapCache Bitmap → Db → Result Db
  unfolding flush_string_bitmaps flush_numeric_bitmaps
  flush c batch = do
    batch' ← flush_string_bitmaps c.string_bitmaps batch
    flush_numeric_bitmaps c.numeric_bitmaps batch'
