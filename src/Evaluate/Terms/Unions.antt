-- ===== src/Evaluate/Terms/Unions.antt =====
-- The union of the bitmaps of the values that a scan selects.
use pebble_bitmap_store_note.Prelude.{
  ℕ, ◌≡◌, sym, ap, ◌∙◌, Bool, ◌||◌, List, [], ◌∷◌, any, Bytes, ok, ◌>>=◌, >>=-eq-ok, ok-injective,
  or_false, arith,
}
use pebble_bitmap_store_note.Packages.PebbleDb.{Pebble}
use pebble_bitmap_store_note.Packages.Roaring64.{Roaring}
use pebble_bitmap_store_note.Encoding.Keys.{
  string_bitmap_key, numeric_bitmap_key, string_bitmap_name_prefix, numeric_bitmap_name_prefix,
}
use pebble_bitmap_store_note.Encoding.Ranges.{prefix_upper_bound}
use pebble_bitmap_store_note.Index.Bitmaps.{get_string_bitmap, get_numeric_bitmap}
use pebble_bitmap_store_note.Index.Bitmaps.Stored.{
  stored, contains-get_string_bitmap, contains-get_numeric_bitmap,
}
use pebble_bitmap_store_note.Index.Attributes.{Attributes, Indexes, passes}
use pebble_bitmap_store_note.Index.Layouts.{
  IsName, string_layout, numeric_layout, string-IndexedAt, numeric-IndexedAt,
}
use pebble_bitmap_store_note.Index.Values.{
  scan_distinct_string_values, scan_distinct_numeric_values,
}
use pebble_bitmap_store_note.Index.Values.Selected.{union-selected}
use pebble_bitmap_store_note.Evaluate.{
  union_string_bitmaps, reconstruct_string_bitmaps_or, union_numeric_bitmaps,
  reconstruct_numeric_bitmaps_or,
}

module _ (p : Pebble) (r : Roaring) where
  open p use {Db, scan}
  open r use {Bitmap, contains, new, or, contains-or, contains-new}

  contains-union_string :
      (d : Db) (name : Bytes) (bm : Bitmap) (vs : List Bytes) (b : Bitmap) (i : ℕ)
      → union_string_bitmaps p r d name bm vs ≡ ok b
      → contains b i ≡ (any (λ v. stored p r d (string_bitmap_key name v) i) vs || contains bm i)
  unfolding union_string_bitmaps
  contains-union_string d name bm [] b i h = ap (λ c. contains c i) (sym (ok-injective h))
  contains-union_string d name bm (v ∷ vs) b i h =
      let (c, got, h') = >>=-eq-ok (get_string_bitmap p r d name v) _ h in
      ground (
        arith,
        contains-union_string d name (or bm c) vs b i h',
        contains-or bm c i,
        contains-get_string_bitmap p r d name v c i got,
      )

  contains-union_numeric :
      (d : Db) (name : Bytes) (bm : Bitmap) (vs : List ℕ) (b : Bitmap) (i : ℕ)
      → union_numeric_bitmaps p r d name bm vs ≡ ok b
      → contains b i ≡ (any (λ v. stored p r d (numeric_bitmap_key name v) i) vs || contains bm i)
  unfolding union_numeric_bitmaps
  contains-union_numeric d name bm [] b i h = ap (λ c. contains c i) (sym (ok-injective h))
  contains-union_numeric d name bm (v ∷ vs) b i h =
      let (c, got, h') = >>=-eq-ok (get_numeric_bitmap p r d name v) _ h in
      ground (
        arith,
        contains-union_numeric d name (or bm c) vs b i h',
        contains-or bm c i,
        contains-get_numeric_bitmap p r d name v c i got,
      )

  module _ (d : Db) (a : Attributes) (x : Indexes p r d a) (i : ℕ) (name : Bytes)
      (n : IsName name) where
    pub contains-string_scan :
        (filter : Bytes → Bool) (b : Bitmap)
        → (scan_distinct_string_values p d name filter >>= λ values.
            reconstruct_string_bitmaps_or p r d name values)
          ≡ ok b
        → contains b i ≡ passes filter (a.strings i name)
    unfolding scan_distinct_string_values reconstruct_string_bitmaps_or
    contains-string_scan filter b h =
        let (vs, selected, h') = >>=-eq-ok (scan_distinct_string_values p d name filter) _ h in
        let (found, scanned, collected) =
          >>=-eq-ok
            (scan d (string_bitmap_name_prefix name)
              (prefix_upper_bound (string_bitmap_name_prefix name)))
            _ selected in
        contains-union_string d name new vs b i h'
        ∙ ap (λ c. any (λ v. stored p r d (string_bitmap_key name v) i) vs || c) (contains-new i)
        ∙ or_false _
        ∙ union-selected p r (string_layout name n) d i (a.strings i name)
            (string-IndexedAt name n p r d a x i) filter found vs scanned collected

    pub contains-numeric_scan :
        (filter : ℕ → Bool) (b : Bitmap)
        → (scan_distinct_numeric_values p d name filter >>= λ values.
            reconstruct_numeric_bitmaps_or p r d name values)
          ≡ ok b
        → contains b i ≡ passes filter (a.numbers i name)
    unfolding scan_distinct_numeric_values reconstruct_numeric_bitmaps_or
    contains-numeric_scan filter b h =
        let (vs, selected, h') = >>=-eq-ok (scan_distinct_numeric_values p d name filter) _ h in
        let (found, scanned, collected) =
          >>=-eq-ok
            (scan d (numeric_bitmap_name_prefix name)
              (prefix_upper_bound (numeric_bitmap_name_prefix name)))
            _ selected in
        contains-union_numeric d name new vs b i h'
        ∙ ap (λ c. any (λ v. stored p r d (numeric_bitmap_key name v) i) vs || c) (contains-new i)
        ∙ or_false _
        ∙ union-selected p r (numeric_layout name n) d i (a.numbers i name)
            (numeric-IndexedAt name n p r d a x i) filter found vs scanned collected
