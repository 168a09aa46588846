-- ===== src/Events/Loops.antt =====
-- pebblestore/follow_events.go: the loops that add an entity to the bitmaps of its attributes and
-- remove it from them.
use pebble_bitmap_store_note.Prelude.{ℕ, [], ◌∷◌, Bytes, Result, ok, ◌>>=◌, if◌then◌else◌}
use pebble_bitmap_store_note.Packages.PebbleDb.{Pebble}
use pebble_bitmap_store_note.Packages.Roaring64.{Roaring}
use pebble_bitmap_store_note.Maps.{Entries}
use pebble_bitmap_store_note.Cache.{
  BitmapCache, add_to_string_bitmap, remove_from_string_bitmap, add_to_numeric_bitmap,
  remove_from_numeric_bitmap,
}
use pebble_bitmap_store_note.Events.Attributes.{is_not_indexed}

module _ (p : Pebble) (r : Roaring) (d : p.Db) (id : ℕ) where
  abbrev Cache : Type 0
  Cache = BitmapCache r.Bitmap

  unfoldable pub add_strings : Cache → Entries Bytes → Result Cache
  add_strings cache [] = ok cache
  add_strings cache ((k, v) ∷ rest) = do
    cache' ← add_to_string_bitmap p r d cache k v id
    add_strings cache' rest

  unfoldable pub remove_strings : Cache → Entries Bytes → Result Cache
  remove_strings cache [] = ok cache
  remove_strings cache ((k, v) ∷ rest) = do
    cache' ← remove_from_string_bitmap p r d cache k v id
    remove_strings cache' rest

  unfoldable pub add_numbers : Cache → Entries ℕ → Result Cache
  add_numbers cache [] = ok cache
  add_numbers cache ((k, v) ∷ rest) = do
    cache' ← if is_not_indexed k then ok cache else add_to_numeric_bitmap p r d cache k v id
    add_numbers cache' rest

  unfoldable pub remove_numbers : Cache → Entries ℕ → Result Cache
  remove_numbers cache [] = ok cache
  remove_numbers cache ((k, v) ∷ rest) = do
    cache' ← if is_not_indexed k then ok cache else remove_from_numeric_bitmap p r d cache k v id
    remove_numbers cache' rest
