-- ===== src/Index/Bitmaps.antt =====
-- pebblestore/bitmap_ops.go and store/bitmap.go: one bitmap for each attribute name and value.
pub mod Stored
use pebble_bitmap_store_note.Prelude.{ℕ, Option, none, some, [], Bytes, Result, ok, ◌>>=◌}
use pebble_bitmap_store_note.Packages.PebbleDb.{Pebble}
use pebble_bitmap_store_note.Packages.Roaring64.{Roaring}
use pebble_bitmap_store_note.Encoding.Keys.{string_bitmap_key, numeric_bitmap_key}

module _ (p : Pebble) (r : Roaring) where
  open p use {Db, get, set, delete}
  open r use {Bitmap, new, run_optimize, write_to, unmarshal_binary}

  -- `none` is a nil embedded pointer.
  unfoldable pub marshal_binary : Option Bitmap → Result Bytes
  marshal_binary none = ok []
  marshal_binary (some b) = write_to (run_optimize b)

  unfoldable pub get_string_bitmap : Db → Bytes → Bytes → Result Bitmap
  get_string_bitmap reader name value = do
    val ← get reader (string_bitmap_key name value)
    elim val [ none ↦ ok new | some stored ↦ unmarshal_binary stored ]

  unfoldable pub set_string_bitmap : Db → Bytes → Bytes → Bitmap → Result Db
  unfolding marshal_binary
  set_string_bitmap batch name value bm = do
    encoded ← marshal_binary (some bm)
    set batch (string_bitmap_key name value) encoded

  unfoldable pub delete_string_bitmap : Db → Bytes → Bytes → Result Db
  delete_string_bitmap batch name value = delete batch (string_bitmap_key name value)

  unfoldable pub get_numeric_bitmap : Db → Bytes → ℕ → Result Bitmap
  get_numeric_bitmap reader name value = do
    val ← get reader (numeric_bitmap_key name value)
    elim val [ none ↦ ok new | some stored ↦ unmarshal_binary stored ]

  unfoldable pub set_numeric_bitmap : Db → Bytes → ℕ → Bitmap → Result Db
  unfolding marshal_binary
  set_numeric_bitmap batch name value bm = do
    encoded ← marshal_binary (some bm)
    set batch (numeric_bitmap_key name value) encoded

  unfoldable pub delete_numeric_bitmap : Db → Bytes → ℕ → Result Db
  delete_numeric_bitmap batch name value = delete batch (numeric_bitmap_key name value)
