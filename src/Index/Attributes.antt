-- ===== src/Index/Attributes.antt =====
-- The attributes of entities, and what it means that the database indexes them.
use pebble_bitmap_store_note.Prelude.{
  ℕ, ◌+◌, ◌<◌, ◌≡◌, Bool, true, false, Option, none, some, [], ◌∷◌, Bytes, bytes_eq, length, ◌==◌,
}
use pebble_bitmap_store_note.Packages.PebbleDb.{Pebble}
use pebble_bitmap_store_note.Packages.Roaring64.{Roaring}
use pebble_bitmap_store_note.Encoding.Keys.{
  prefix_string_bitmap, prefix_numeric_bitmap, string_bitmap_key, numeric_bitmap_key,
}
use pebble_bitmap_store_note.Encoding.Ranges.{has_prefix}
use pebble_bitmap_store_note.Index.Bitmaps.Stored.{stored}

-- The attributes of each identifier: a string and a number, by name.
pub record Attributes : Type 0 where
  pub strings : ℕ → Bytes → Option Bytes
  pub numbers : ℕ → Bytes → Option ℕ

-- The attribute is there and its value passes the test.
abbrev pub passes : {V : Type 0} → (V → Bool) → Option V → Bool
passes test none = false
passes test (some v) = test v

-- The key of a name and a value is one that its decoder reads.
abbrev pub FitsString : Bytes → Bytes → Type 0
FitsString name value = length name + length value + 5 < 65536

abbrev pub FitsNumber : Bytes → ℕ → Type 0
FitsNumber name value = (length name + 3 < 65536) × (value < 18446744073709551616)

module _ (p : Pebble) (r : Roaring) where
  open p use {Db, view}

  -- The bitmap of a name and a value holds the identifiers that have this value there, and there
  -- are no other keys among those of the index.
  pub record Indexes (d : Db) (a : Attributes) : Type 0 where
    pub string_fits : (i : ℕ) (n v : Bytes) → a.strings i n ≡ some v → FitsString n v
    pub string_stored :
        (i : ℕ) (n v : Bytes)
        → FitsString n v
        → stored p r d (string_bitmap_key n v) i ≡ passes (λ w. bytes_eq w v) (a.strings i n)
    pub string_keys :
        (k s : Bytes)
        → view d k ≡ some s
        → has_prefix (prefix_string_bitmap ∷ []) k ≡ true
        → (n v : Bytes) × (k ≡ string_bitmap_key n v) × FitsString n v
    pub number_fits : (i : ℕ) (n : Bytes) (v : ℕ) → a.numbers i n ≡ some v → FitsNumber n v
    pub number_stored :
        (i : ℕ) (n : Bytes) (v : ℕ)
        → FitsNumber n v
        → stored p r d (numeric_bitmap_key n v) i ≡ passes (λ w. w == v) (a.numbers i n)
    pub number_keys :
        (k s : Bytes)
        → view d k ≡ some s
        → has_prefix (prefix_numeric_bitmap ∷ []) k ≡ true
        → (n : Bytes) × (v : ℕ) × (k ≡ numeric_bitmap_key n v) × FitsNumber n v
