-- ===== src/Cache/Tests.antt =====
-- A cache over an in-memory database.
use pebble_bitmap_store_note.Prelude.{ℕ, refl, not, ◌&&◌, ◌||◌, ◌==◌, codes, List, [], ◌∷◌}
use pebble_bitmap_store_note.Packages.InMemory.{
  Table, table_db, list_bitmaps, lookup, inside, visible,
}
use pebble_bitmap_store_note.Encoding.Ranges.{in_range}
use pebble_bitmap_store_note.Encoding.Keys.{numeric_bitmap_key}
use pebble_bitmap_store_note.Evaluate.Total.Scans.{Serves}
use pebble_bitmap_store_note.Cache.{
  BitmapCache, new_bitmap_cache, add_to_string_bitmap, remove_from_string_bitmap,
  add_to_numeric_bitmap, remove_from_numeric_bitmap,
}
use pebble_bitmap_store_note.Cache.Changes.{
  ChangesString, ChangesNumber, string_bitmap-ChangesString, numeric_bitmap-ChangesNumber,
}

-- The entity 7 has a = 1.
abbrev seven_db : Table
seven_db = (numeric_bitmap_key (codes "a") 1, 7 ∷ []) ∷ []

seven-Serves : Serves table_db list_bitmaps seven_db
seven-Serves = record {
  gets = λ k. (lookup seven_db k, refl);
  scans = λ lower upper. (inside (in_range lower upper) (visible seven_db), refl);
  string_bitmaps = λ n v s h. (s, refl);
  numeric_bitmaps = λ n v s h. (s, refl);
}

abbrev empty_cache : BitmapCache (List ℕ)
empty_cache = new_bitmap_cache table_db list_bitmaps

string_bitmap-ChangesString_example :
    ChangesString table_db list_bitmaps seven_db seven-Serves empty_cache
      (λ j before. (3 == j) || before)
      (codes "type")
      (codes "nft")
      (add_to_string_bitmap table_db list_bitmaps seven_db empty_cache
        (codes "type")
        (codes "nft")
        3)
    × ChangesString table_db list_bitmaps seven_db seven-Serves empty_cache
        (λ j before. not (3 == j) && before)
        (codes "type")
        (codes "nft")
        (remove_from_string_bitmap table_db list_bitmaps seven_db empty_cache
          (codes "type")
          (codes "nft")
          3)
string_bitmap-ChangesString_example =
    string_bitmap-ChangesString table_db list_bitmaps seven_db seven-Serves empty_cache
      (codes "type") (codes "nft") 3

numeric_bitmap-ChangesNumber_example :
    ChangesNumber table_db list_bitmaps seven_db seven-Serves empty_cache
      (λ j before. (7 == j) || before)
      (codes "a")
      1
      (add_to_numeric_bitmap table_db list_bitmaps seven_db empty_cache (codes "a") 1 7)
    × ChangesNumber table_db list_bitmaps seven_db seven-Serves empty_cache
        (λ j before. not (7 == j) && before)
        (codes "a")
        1
        (remove_from_numeric_bitmap table_db list_bitmaps seven_db empty_cache (codes "a") 1 7)
numeric_bitmap-ChangesNumber_example =
    numeric_bitmap-ChangesNumber table_db list_bitmaps seven_db seven-Serves empty_cache (codes "a")
      1 7
