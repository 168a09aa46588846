-- ===== src/Events/Holds.antt =====
-- The index as the cache and the database together have it, and what the loops over the attributes
-- of an entity change in it.
use pebble_bitmap_store_note.Prelude.{
  ℕ, ◌≡◌, refl, ◌∙◌, Bool, not, ◌&&◌, ◌||◌, ◌==◌, [], ◌∷◌, any, Bytes, bytes_eq, ok, arith, inl,
  inr, Bool-cases,
}
use pebble_bitmap_store_note.Packages.PebbleDb.{Pebble}
use pebble_bitmap_store_note.Packages.Roaring64.{Roaring}
use pebble_bitmap_store_note.Encoding.Keys.{string_bitmap_key, numeric_bitmap_key}
use pebble_bitmap_store_note.Index.Bitmaps.Stored.{stored}
use pebble_bitmap_store_note.Evaluate.Total.Scans.{Serves}
use pebble_bitmap_store_note.Maps.{Entries}
use pebble_bitmap_store_note.Cache.{BitmapCache}
use pebble_bitmap_store_note.Cache.Overlay.{find, same_number}
use pebble_bitmap_store_note.Cache.Changes.{
  in_cache, string_bitmap-ChangesString, numeric_bitmap-ChangesNumber,
}
use pebble_bitmap_store_note.Events.Attributes.{is_not_indexed}
use pebble_bitmap_store_note.Events.Loops.{add_strings, remove_strings, add_numbers, remove_numbers}

-- The pair stands among the entries.
abbrev pub string_among : Bytes → Bytes → Entries Bytes → Bool
string_among m w kvs = any (λ (kv : Bytes × Bytes). bytes_eq kv.0 m && bytes_eq kv.1 w) kvs

-- The pair stands among the entries that have bitmaps.
abbrev pub number_among : Bytes → ℕ → Entries ℕ → Bool
number_among m w kvs =
    any (λ (kv : Bytes × ℕ). not (is_not_indexed kv.0) && (bytes_eq kv.0 m && (kv.1 == w))) kvs

module _ (p : Pebble) (r : Roaring) where
  abbrev pub holds_string : p.Db → BitmapCache r.Bitmap → Bytes → Bytes → ℕ → Bool
  holds_string d c m w j =
      in_cache r (find bytes_eq c.string_bitmaps m w) (stored p r d (string_bitmap_key m w) j) j

  abbrev pub holds_number : p.Db → BitmapCache r.Bitmap → Bytes → ℕ → ℕ → Bool
  holds_number d c m w j =
      in_cache r (find same_number c.numeric_bitmaps m w) (stored p r d (numeric_bitmap_key m w) j)
        j

  module _ (d : p.Db) (serves : Serves p r d) (id : ℕ) where
    abbrev Cache : Type 0
    Cache = BitmapCache r.Bitmap

    pub add_strings-holds :
        (c : Cache) (kvs : Entries Bytes)
        → (c' : Cache) × (add_strings p r d id c kvs ≡ ok c')
          × (c'.numeric_bitmaps ≡ c.numeric_bitmaps)
          × ((m w : Bytes) (j : ℕ)
              → holds_string d c' m w j
                ≡ (((id == j) && string_among m w kvs) || holds_string d c m w j))
    unfolding add_strings
    add_strings-holds c [] = (c, refl, refl, λ m w j. ground arith)
    add_strings-holds c ((k, v) ∷ rest) =
        let (c1, e, same, change) = (string_bitmap-ChangesString p r d serves c k v id).0 in
        let (c2, e', same', change') = add_strings-holds c1 rest in
        (c2, rw e e', same' ∙ same, λ m w j. change' m w j ∙ ground (arith, change m w j))

    pub remove_strings-holds :
        (c : Cache) (kvs : Entries Bytes)
        → (c' : Cache) × (remove_strings p r d id c kvs ≡ ok c')
          × (c'.numeric_bitmaps ≡ c.numeric_bitmaps)
          × ((m w : Bytes) (j : ℕ)
              → holds_string d c' m w j
                ≡ (not ((id == j) && string_among m w kvs) && holds_string d c m w j))
    unfolding remove_strings
    remove_strings-holds c [] = (c, refl, refl, λ m w j. ground arith)
    remove_strings-holds c ((k, v) ∷ rest) =
        let (c1, e, same, change) = (string_bitmap-ChangesString p r d serves c k v id).1 in
        let (c2, e', same', change') = remove_strings-holds c1 rest in
        (c2, rw e e', same' ∙ same, λ m w j. change' m w j ∙ ground (arith, change m w j))

    pub add_numbers-holds :
        (c : Cache) (kvs : Entries ℕ)
        → (c' : Cache) × (add_numbers p r d id c kvs ≡ ok c')
          × (c'.string_bitmaps ≡ c.string_bitmaps)
          × ((m : Bytes) (w j : ℕ)
              → holds_number d c' m w j
                ≡ (((id == j) && number_among m w kvs) || holds_number d c m w j))
    unfolding add_numbers
    add_numbers-holds c [] = (c, refl, refl, λ m w j. ground arith)
    add_numbers-holds c ((k, v) ∷ rest) = elim (Bool-cases (is_not_indexed k)) [
      | inl skipped ↦
          let (c2, e', same', change') = add_numbers-holds c rest in
          (c2, rw skipped e', same', λ m w j. change' m w j ∙ rw skipped refl)
      | inr indexed ↦
          let (c1, e, same, change) = (numeric_bitmap-ChangesNumber p r d serves c k v id).0 in
          let (c2, e', same', change') = add_numbers-holds c1 rest in
          (
            c2,
            rw (indexed, e) e',
            same' ∙ same,
            λ m w j. change' m w j ∙ rw indexed (ground (arith, change m w j)),
          )
    ]

    pub remove_numbers-holds :
        (c : Cache) (kvs : Entries ℕ)
        → (c' : Cache) × (remove_numbers p r d id c kvs ≡ ok c')
          × (c'.string_bitmaps ≡ c.string_bitmaps)
          × ((m : Bytes) (w j : ℕ)
              → holds_number d c' m w j
                ≡ (not ((id == j) && number_among m w kvs) && holds_number d c m w j))
    unfolding remove_numbers
    remove_numbers-holds c [] = (c, refl, refl, λ m w j. ground arith)
    remove_numbers-holds c ((k, v) ∷ rest) = elim (Bool-cases (is_not_indexed k)) [
      | inl skipped ↦
          let (c2, e', same', change') = remove_numbers-holds c rest in
          (c2, rw skipped e', same', λ m w j. change' m w j ∙ rw skipped refl)
      | inr indexed ↦
          let (c1, e, same, change) = (numeric_bitmap-ChangesNumber p r d serves c k v id).1 in
          let (c2, e', same', change') = remove_numbers-holds c1 rest in
          (
            c2,
            rw (indexed, e) e',
            same' ∙ same,
            λ m w j. change' m w j ∙ rw indexed (ground (arith, change m w j)),
          )
    ]
