-- ===== src/Events/Cached.antt =====
-- The names and values that the cache has bitmaps for.
use pebble_bitmap_store_note.Prelude.{
  ℕ, ◌≡◌, subst, Bool, true, false, [], ◌∷◌, All, Bytes, bytes_eq, bytes_eq_iff, ==_iff, Result, ok,
  err, ◌>>=◌, >>=-eq-ok, ok-injective, if◌then◌else◌,
}
use pebble_bitmap_store_note.Packages.PebbleDb.{Pebble}
use pebble_bitmap_store_note.Packages.Roaring64.{Roaring}
use pebble_bitmap_store_note.Index.Bitmaps.{get_string_bitmap, get_numeric_bitmap}
use pebble_bitmap_store_note.Index.Attributes.{FitsString, FitsNumber}
use pebble_bitmap_store_note.Maps.{Entries}
use pebble_bitmap_store_note.Cache.{
  BitmapCache, cached_or, add_to_string_bitmap, remove_from_string_bitmap, add_to_numeric_bitmap,
  remove_from_numeric_bitmap,
}
use pebble_bitmap_store_note.Cache.Distinct.{IsOverlay, put-IsOverlay}
use pebble_bitmap_store_note.Cache.Overlay.{find, put, same_number}
use pebble_bitmap_store_note.Events.Attributes.{is_not_indexed}
use pebble_bitmap_store_note.Events.Loops.{add_strings, remove_strings, add_numbers, remove_numbers}

module _ (p : Pebble) (r : Roaring) where
  open r use {Bitmap, add, remove}

  abbrev pub IsCache : BitmapCache Bitmap → Type 0
  IsCache c =
      IsOverlay bytes_eq bytes_eq_iff FitsString c.string_bitmaps
      × IsOverlay same_number ==_iff FitsNumber c.numeric_bitmaps

  put_string-IsCache :
      (c c' : BitmapCache Bitmap) (n v : Bytes) (change : Bitmap → Bitmap)
      → FitsString n v
      → IsCache c
      → (m : Result Bitmap)
      → (m >>= λ b. ok (record c { string_bitmaps = put bytes_eq c.string_bitmaps n v (change b) }))
        ≡ ok c'
      → IsCache c'
  put_string-IsCache c c' n v change fits h (err failure) e = cc
  put_string-IsCache c c' n v change fits h (ok b) e =
      subst IsCache (ok-injective e) (
        put-IsOverlay bytes_eq bytes_eq_iff FitsString c.string_bitmaps n v (change b) fits h.0,
        h.1,
      )

  put_numeric-IsCache :
      (c c' : BitmapCache Bitmap) (n : Bytes) (v : ℕ) (change : Bitmap → Bitmap)
      → FitsNumber n v
      → IsCache c
      → (m : Result Bitmap)
      → (m >>= λ b.
          ok (record c { numeric_bitmaps = put same_number c.numeric_bitmaps n v (change b) }))
        ≡ ok c'
      → IsCache c'
  put_numeric-IsCache c c' n v change fits h (err failure) e = cc
  put_numeric-IsCache c c' n v change fits h (ok b) e =
      subst IsCache (ok-injective e)
        (h.0, put-IsOverlay same_number ==_iff FitsNumber c.numeric_bitmaps n v (change b) fits h.1)

  -- The four calls.
  pub add_to_string-IsCache :
      (d : p.Db) (c c' : BitmapCache Bitmap) (n v : Bytes) (id : ℕ)
      → FitsString n v
      → IsCache c
      → add_to_string_bitmap p r d c n v id ≡ ok c'
      → IsCache c'
  unfolding add_to_string_bitmap
  add_to_string-IsCache d c c' n v id fits h e =
      put_string-IsCache c c' n v (λ b. add b id) fits h
        (cached_or (find bytes_eq c.string_bitmaps n v) (get_string_bitmap p r d n v)) e

  pub remove_from_string-IsCache :
      (d : p.Db) (c c' : BitmapCache Bitmap) (n v : Bytes) (id : ℕ)
      → FitsString n v
      → IsCache c
      → remove_from_string_bitmap p r d c n v id ≡ ok c'
      → IsCache c'
  unfolding remove_from_string_bitmap
  remove_from_string-IsCache d c c' n v id fits h e =
      put_string-IsCache c c' n v (λ b. remove b id) fits h
        (cached_or (find bytes_eq c.string_bitmaps n v) (get_string_bitmap p r d n v)) e

  pub add_to_numeric-IsCache :
      (d : p.Db) (c c' : BitmapCache Bitmap) (n : Bytes) (v id : ℕ)
      → FitsNumber n v
      → IsCache c
      → add_to_numeric_bitmap p r d c n v id ≡ ok c'
      → IsCache c'
  unfolding add_to_numeric_bitmap
  add_to_numeric-IsCache d c c' n v id fits h e =
      put_numeric-IsCache c c' n v (λ b. add b id) fits h
        (cached_or (find same_number c.numeric_bitmaps n v) (get_numeric_bitmap p r d n v)) e

  pub remove_from_numeric-IsCache :
      (d : p.Db) (c c' : BitmapCache Bitmap) (n : Bytes) (v id : ℕ)
      → FitsNumber n v
      → IsCache c
      → remove_from_numeric_bitmap p r d c n v id ≡ ok c'
      → IsCache c'
  unfolding remove_from_numeric_bitmap
  remove_from_numeric-IsCache d c c' n v id fits h e =
      put_numeric-IsCache c c' n v (λ b. remove b id) fits h
        (cached_or (find same_number c.numeric_bitmaps n v) (get_numeric_bitmap p r d n v)) e

  -- The four loops.
  module _ (d : p.Db) (id : ℕ) where
    abbrev pub AllFitStrings : Entries Bytes → Type 0
    AllFitStrings kvs = All (λ (kv : Bytes × Bytes). FitsString kv.0 kv.1) kvs

    abbrev pub AllFitNumbers : Entries ℕ → Type 0
    AllFitNumbers kvs = All (λ (kv : Bytes × ℕ). FitsNumber kv.0 kv.1) kvs

    pub add_strings-IsCache :
        (c c' : BitmapCache Bitmap) (kvs : Entries Bytes)
        → AllFitStrings kvs
        → IsCache c
        → add_strings p r d id c kvs ≡ ok c'
        → IsCache c'
    unfolding add_strings
    add_strings-IsCache c c' [] fits h e = subst IsCache (ok-injective e) h
    add_strings-IsCache c c' ((k, v) ∷ rest) fits h e =
        let (c1, e1, e') = >>=-eq-ok (add_to_string_bitmap p r d c k v id) _ e in
        add_strings-IsCache c1 c' rest fits.1 (add_to_string-IsCache d c c1 k v id fits.0 h e1) e'

    pub remove_strings-IsCache :
        (c c' : BitmapCache Bitmap) (kvs : Entries Bytes)
        → AllFitStrings kvs
        → IsCache c
        → remove_strings p r d id c kvs ≡ ok c'
        → IsCache c'
    unfolding remove_strings
    remove_strings-IsCache c c' [] fits h e = subst IsCache (ok-injective e) h
    remove_strings-IsCache c c' ((k, v) ∷ rest) fits h e =
        let (c1, e1, e') = >>=-eq-ok (remove_from_string_bitmap p r d c k v id) _ e in
        remove_strings-IsCache c1 c' rest fits.1
          (remove_from_string-IsCache d c c1 k v id fits.0 h e1) e'

    number_step :
        (t : Bool) (c c' : BitmapCache Bitmap) (call : Result (BitmapCache Bitmap))
        → IsCache c
        → (call ≡ ok c' → IsCache c')
        → (if t then ok c else call) ≡ ok c'
        → IsCache c'
    number_step true c c' call h k e = subst IsCache (ok-injective e) h
    number_step false c c' call h k e = k e

    pub add_numbers-IsCache :
        (c c' : BitmapCache Bitmap) (kvs : Entries ℕ)
        → AllFitNumbers kvs
        → IsCache c
        → add_numbers p r d id c kvs ≡ ok c'
        → IsCache c'
    unfolding add_numbers
    add_numbers-IsCache c c' [] fits h e = subst IsCache (ok-injective e) h
    add_numbers-IsCache c c' ((k, v) ∷ rest) fits h e =
        let (c1, e1, e') =
          >>=-eq-ok (if is_not_indexed k then ok c else add_to_numeric_bitmap p r d c k v id) _ e in
        add_numbers-IsCache c1 c' rest fits.1
          (number_step (is_not_indexed k) c c1 _ h (add_to_numeric-IsCache d c c1 k v id fits.0 h)
            e1)
          e'

    pub remove_numbers-IsCache :
        (c c' : BitmapCache Bitmap) (kvs : Entries ℕ)
        → AllFitNumbers kvs
        → IsCache c
        → remove_numbers p r d id c kvs ≡ ok c'
        → IsCache c'
    unfolding remove_numbers
    remove_numbers-IsCache c c' [] fits h e = subst IsCache (ok-injective e) h
    remove_numbers-IsCache c c' ((k, v) ∷ rest) fits h e =
        let (c1, e1, e') =
          >>=-eq-ok (if is_not_indexed k then ok c else remove_from_numeric_bitmap p r d c k v id) _
            e in
        remove_numbers-IsCache c1 c' rest fits.1
          (number_step (is_not_indexed k) c c1 _ h
            (remove_from_numeric-IsCache d c c1 k v id fits.0 h) e1)
          e'
