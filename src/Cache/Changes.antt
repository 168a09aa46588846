-- ===== src/Cache/Changes.antt =====
-- What each call on the cache changes in the index as the cache and the database together have it.
use pebble_bitmap_store_note.Prelude.{
  ℕ, ◌≡◌, ◌↔◌, refl, ap, ap₂, ◌∙◌, inl, inr, Bool, true, false, not, ◌&&◌, ◌||◌, ◌==◌, ==_iff,
  Option, none, some, Bytes, bytes_eq, bytes_eq_iff, Bool-cases, Result, ok, Ok, if◌then◌else◌,
}
use pebble_bitmap_store_note.Packages.PebbleDb.{Pebble}
use pebble_bitmap_store_note.Packages.Roaring64.{Roaring}
use pebble_bitmap_store_note.Encoding.Keys.{string_bitmap_key, numeric_bitmap_key}
use pebble_bitmap_store_note.Index.Bitmaps.{get_string_bitmap, get_numeric_bitmap}
use pebble_bitmap_store_note.Index.Bitmaps.Stored.{
  stored, contains-get_string_bitmap, contains-get_numeric_bitmap,
}
use pebble_bitmap_store_note.Evaluate.Total.Scans.{Serves, get_string-Ok, get_numeric-Ok}
use pebble_bitmap_store_note.Cache.{
  BitmapCache, cached_or, add_to_string_bitmap, remove_from_string_bitmap, add_to_numeric_bitmap,
  remove_from_numeric_bitmap,
}
use pebble_bitmap_store_note.Cache.Overlay.{Entries, find, put, find-put, same_number}

both : (a b : Bool) → (a && b) ≡ true → (a ≡ true) × (b ≡ true)
both true true h = (refl, refl)
both true false h = cc
both false b h = cc

module _ (r : Roaring) where
  open r use {Bitmap, contains}

  -- Membership in a cached bitmap, or in the stored one if none is cached.
  abbrev pub in_cache : Option Bitmap → Bool → ℕ → Bool
  in_cache none s j = s
  in_cache (some b) s j = contains b j

  fetched :
      (o : Option Bitmap) (read : Result Bitmap) (b : Bitmap) (s : Bool) (j : ℕ)
      → cached_or o read ≡ ok b
      → (read ≡ ok b → contains b j ≡ s)
      → contains b j ≡ in_cache o s j
  unfolding cached_or
  fetched none read b s j h k = k h
  fetched (some c) read b s j h k = cc

  fetched-Ok : (o : Option Bitmap) (read : Result Bitmap) → Ok read → Ok (cached_or o read)
  unfolding cached_or
  fetched-Ok none read done = done
  fetched-Ok (some c) read done = (c, refl)

  put-in_cache :
      {V : Type 0} (eq : V → V → Bool) (eq_iff : (v w : V) → (eq v w ≡ true) ↔ (v ≡ w))
      (change : ℕ → Bool → Bool) (entries : Entries V Bitmap) (name : Bytes) (value : V)
      (b changed : Bitmap) (s : Bytes → V → ℕ → Bool)
      → ((j : ℕ) → contains changed j ≡ change j (contains b j))
      → ((j : ℕ) → contains b j ≡ in_cache (find eq entries name value) (s name value j) j)
      → (m : Bytes) (w : V) (j : ℕ)
      → in_cache (find eq (put eq entries name value changed) m w) (s m w j) j ≡ (
          if bytes_eq name m && eq value w
          then change j (in_cache (find eq entries m w) (s m w j) j)
          else in_cache (find eq entries m w) (s m w j) j)
  put-in_cache eq eq_iff change entries name value b changed s law had m w j =
      elim (Bool-cases (bytes_eq name m && eq value w)) [
        | inl t ↦
            let (same_name, same_value) = both (bytes_eq name m) (eq value w) t in
            rw (find-put eq eq_iff entries name value changed m w, t)
              (law j
                ∙ ap (change j) (
                    had j
                    ∙ ap₂ (λ n v. in_cache (find eq entries n v) (s n v j) j)
                        ((bytes_eq_iff name m).0 same_name) ((eq_iff value w).0 same_value)))
        | inr t ↦ rw (find-put eq eq_iff entries name value changed m w, t) refl
      ]

module _ (p : Pebble) (r : Roaring) (d : p.Db) (serves : Serves p r d)
    (c : BitmapCache r.Bitmap) where
  open r use {Bitmap, contains, add, remove, contains-add, contains-remove}

  -- The identifier `j` is in the bitmap of a name and a value, the cache's if it has one.
  abbrev pub has_string : BitmapCache Bitmap → Bytes → Bytes → ℕ → Bool
  has_string e m w j =
      in_cache r (find bytes_eq e.string_bitmaps m w) (stored p r d (string_bitmap_key m w) j) j

  abbrev pub has_number : BitmapCache Bitmap → Bytes → ℕ → ℕ → Bool
  has_number e m w j =
      in_cache r (find same_number e.numeric_bitmaps m w) (stored p r d (numeric_bitmap_key m w) j)
        j

  -- A call succeeds and changes, of all bitmaps of names and strings, this one by `change`.
  abbrev pub ChangesString :
      (ℕ → Bool → Bool) → Bytes → Bytes → Result (BitmapCache Bitmap) → Type 0
  ChangesString change name value call =
      (c' : BitmapCache Bitmap) × (call ≡ ok c')
      × (c'.numeric_bitmaps ≡ c.numeric_bitmaps)
      × ((m w : Bytes) (j : ℕ)
          → has_string c' m w j ≡ (
              if bytes_eq name m && bytes_eq value w
              then change j (has_string c m w j)
              else has_string c m w j))

  abbrev pub ChangesNumber : (ℕ → Bool → Bool) → Bytes → ℕ → Result (BitmapCache Bitmap) → Type 0
  ChangesNumber change name value call =
      (c' : BitmapCache Bitmap) × (call ≡ ok c')
      × (c'.string_bitmaps ≡ c.string_bitmaps)
      × ((m : Bytes) (w j : ℕ)
          → has_number c' m w j ≡ (
              if bytes_eq name m && (value == w)
              then change j (has_number c m w j)
              else has_number c m w j))

  fetch_string :
      (name value : Bytes)
      → (b : Bitmap) × (cached_or
            (find bytes_eq c.string_bitmaps name value)
            (get_string_bitmap p r d name value)
          ≡ ok b)
        × ((j : ℕ) → contains b j ≡ has_string c name value j)
  fetch_string name value =
      let (b, e) =
        fetched-Ok r (find bytes_eq c.string_bitmaps name value)
          (get_string_bitmap p r d name value) (get_string-Ok p r d serves name value) in
      (b, e, λ j. fetched r _ _ b _ j e (contains-get_string_bitmap p r d name value b j))

  fetch_number :
      (name : Bytes) (value : ℕ)
      → (b : Bitmap) × (cached_or
            (find same_number c.numeric_bitmaps name value)
            (get_numeric_bitmap p r d name value)
          ≡ ok b)
        × ((j : ℕ) → contains b j ≡ has_number c name value j)
  fetch_number name value =
      let (b, e) =
        fetched-Ok r (find same_number c.numeric_bitmaps name value)
          (get_numeric_bitmap p r d name value) (get_numeric-Ok p r d serves name value) in
      (b, e, λ j. fetched r _ _ b _ j e (contains-get_numeric_bitmap p r d name value b j))

  string_put :
      (name value : Bytes) (b : Bitmap) (change : ℕ → Bool → Bool) (changed : Bitmap)
      → ((j : ℕ) → contains changed j ≡ change j (contains b j))
      → ((j : ℕ) → contains b j ≡ has_string c name value j)
      → (m w : Bytes) (j : ℕ)
      → has_string
          (record c { string_bitmaps = put bytes_eq c.string_bitmaps name value changed })
          m
          w
          j
        ≡ (if bytes_eq name m && bytes_eq value w
            then change j (has_string c m w j)
            else has_string c m w j)
  string_put name value b change changed law had =
      put-in_cache r bytes_eq bytes_eq_iff change c.string_bitmaps name value b changed
        (λ m w j. stored p r d (string_bitmap_key m w) j) law had

  number_put :
      (name : Bytes) (value : ℕ) (b : Bitmap) (change : ℕ → Bool → Bool) (changed : Bitmap)
      → ((j : ℕ) → contains changed j ≡ change j (contains b j))
      → ((j : ℕ) → contains b j ≡ has_number c name value j)
      → (m : Bytes) (w j : ℕ)
      → has_number
          (record c { numeric_bitmaps = put same_number c.numeric_bitmaps name value changed })
          m
          w
          j
        ≡ (if bytes_eq name m && (value == w)
            then change j (has_number c m w j)
            else has_number c m w j)
  number_put name value b change changed law had =
      put-in_cache r same_number ==_iff change c.numeric_bitmaps name value b changed
        (λ m w j. stored p r d (numeric_bitmap_key m w) j) law had

  -- While the database serves every read, adding an identifier to the bitmap of a name and a
  -- string and removing it succeed, change that identifier there, and leave every other member of
  -- every bitmap as it was.
  pub string_bitmap-ChangesString :
      (name value : Bytes) (id : ℕ)
      → ChangesString
          (λ j before. (id == j) || before)
          name
          value
          (add_to_string_bitmap p r d c name value id)
        × ChangesString
            (λ j before. not (id == j) && before)
            name
            value
            (remove_from_string_bitmap p r d c name value id)
  unfolding add_to_string_bitmap remove_from_string_bitmap
  string_bitmap-ChangesString name value id =
      let (b, e, had) = fetch_string name value in
      (
        (
          _,
          rw e refl,
          refl,
          string_put name value b (λ j before. (id == j) || before) (add b id)
              (λ j. contains-add b id j) had,
        ),
        (
          _,
          rw e refl,
          refl,
          string_put name value b (λ j before. not (id == j) && before) (remove b id)
              (λ j. contains-remove b id j) had,
        ),
      )

  -- While the database serves every read, adding an identifier to the bitmap of a name and a
  -- number and removing it succeed, change that identifier there, and leave every other member of
  -- every bitmap as it was.
  pub numeric_bitmap-ChangesNumber :
      (name : Bytes) (value id : ℕ)
      → ChangesNumber
          (λ j before. (id == j) || before)
          name
          value
          (add_to_numeric_bitmap p r d c name value id)
        × ChangesNumber
            (λ j before. not (id == j) && before)
            name
            value
            (remove_from_numeric_bitmap p r d c name value id)
  unfolding add_to_numeric_bitmap remove_from_numeric_bitmap
  numeric_bitmap-ChangesNumber name value id =
      let (b, e, had) = fetch_number name value in
      (
        (
          _,
          rw e refl,
          refl,
          number_put name value b (λ j before. (id == j) || before) (add b id)
              (λ j. contains-add b id j) had,
        ),
        (
          _,
          rw e refl,
          refl,
          number_put name value b (λ j before. not (id == j) && before) (remove b id)
              (λ j. contains-remove b id j) had,
        ),
      )
