-- ===== src/Evaluate/Total/Scans.antt =====
-- The scans of an attribute and the union of its bitmaps, while the database serves every read.
use pebble_bitmap_store_note.Prelude.{
  ℕ, ◌≡◌, refl, sym, ap, ◌∙◌, inl, inr, Bool, Option, none, some, List, [], ◌∷◌, In, Bytes, Result,
  ok, ◌>>=◌, Ok, bind-Ok,
}
use pebble_bitmap_store_note.Packages.PebbleDb.{Pebble}
use pebble_bitmap_store_note.Packages.Roaring64.{Roaring}
use pebble_bitmap_store_note.Encoding.Keys.{string_bitmap_key, numeric_bitmap_key}
use pebble_bitmap_store_note.Encoding.Ranges.{prefix_upper_bound}
use pebble_bitmap_store_note.Index.Bitmaps.{get_string_bitmap, get_numeric_bitmap}
use pebble_bitmap_store_note.Index.Attributes.{Attributes, Indexes}
use pebble_bitmap_store_note.Index.Layouts.{
  IsName, string_layout, numeric_layout, string-IndexedAt, numeric-IndexedAt,
}
use pebble_bitmap_store_note.Index.Values.{
  collect, scan_distinct_string_values, scan_distinct_numeric_values,
}
use pebble_bitmap_store_note.Index.Values.Selected.{KeyLayout, IndexedAt}
use pebble_bitmap_store_note.Evaluate.{
  union_string_bitmaps, reconstruct_string_bitmaps_or, union_numeric_bitmaps,
  reconstruct_numeric_bitmaps_or,
}

collect-Ok :
    {V : Type 0} (decode : Bytes → Result (Bytes × V)) (filter : V → Bool)
    (found : List (Bytes × Bytes))
    → ((k s : Bytes) → In (k, s) found → Ok (decode k))
    → Ok (collect decode filter found)
unfolding collect
collect-Ok decode filter [] all_decode = ([], refl)
collect-Ok decode filter ((key, entry) ∷ rest) all_decode =
    bind-Ok (decode key) _ (all_decode key entry (inl refl)) (λ nv _.
      bind-Ok (collect decode filter rest) _
        (collect-Ok decode filter rest (λ k s m. all_decode k s (inr m))) (λ vs _. (_, refl)))

module _ (p : Pebble) (r : Roaring) where
  open p use {Db, view, get, scan, get_view, scan_view}
  open r use {Bitmap, new, unmarshal_binary, or}

  -- The database serves reads, and the bitmaps that it holds can be read.
  pub record Serves (d : Db) : Type 0 where
    pub gets : (k : Bytes) → Ok (get d k)
    pub scans : (lower : Bytes) (upper : Option Bytes) → Ok (scan d lower upper)
    pub string_bitmaps :
        (n v s : Bytes) → view d (string_bitmap_key n v) ≡ some s → Ok (unmarshal_binary s)
    pub numeric_bitmaps :
        (n : Bytes) (v : ℕ) (s : Bytes)
        → view d (numeric_bitmap_key n v) ≡ some s
        → Ok (unmarshal_binary s)

  value-Ok :
      (o : Option Bytes)
      → ((s : Bytes) → o ≡ some s → Ok (unmarshal_binary s))
      → Ok (elim o as (λ _. Result Bitmap) [ none ↦ ok new | some s ↦ unmarshal_binary s ])
  value-Ok none k = (new, refl)
  value-Ok (some s) k = k s refl

  module _ (d : Db) (serves : Serves d) where
    pub get_string-Ok : (n v : Bytes) → Ok (get_string_bitmap p r d n v)
    unfolding get_string_bitmap
    get_string-Ok n v = bind-Ok (get d (string_bitmap_key n v)) _ (serves.gets _) (λ o e.
        value-Ok o
          (λ s h. serves.string_bitmaps n v s (sym (get_view d (string_bitmap_key n v) o e) ∙ h)))

    pub get_numeric-Ok : (n : Bytes) (v : ℕ) → Ok (get_numeric_bitmap p r d n v)
    unfolding get_numeric_bitmap
    get_numeric-Ok n v = bind-Ok (get d (numeric_bitmap_key n v)) _ (serves.gets _) (λ o e.
        value-Ok o
          (λ s h. serves.numeric_bitmaps n v s (sym (get_view d (numeric_bitmap_key n v) o e) ∙ h)))

    union_string-Ok :
        (n : Bytes) (bm : Bitmap) (vs : List Bytes) → Ok (union_string_bitmaps p r d n bm vs)
    unfolding union_string_bitmaps
    union_string-Ok n bm [] = (bm, refl)
    union_string-Ok n bm (v ∷ vs) =
        bind-Ok (get_string_bitmap p r d n v) _ (get_string-Ok n v)
          (λ b _. union_string-Ok n (or bm b) vs)

    union_numeric-Ok :
        (n : Bytes) (bm : Bitmap) (vs : List ℕ) → Ok (union_numeric_bitmaps p r d n bm vs)
    unfolding union_numeric_bitmaps
    union_numeric-Ok n bm [] = (bm, refl)
    union_numeric-Ok n bm (v ∷ vs) =
        bind-Ok (get_numeric_bitmap p r d n v) _ (get_numeric-Ok n v)
          (λ b _. union_numeric-Ok n (or bm b) vs)

    -- Every key that the scan of a name finds is decoded.
    scan_collect-Ok :
        {V : Type 0} {name : Bytes} (l : KeyLayout V name) (i : ℕ) (o : Option V)
        → IndexedAt p r l d i o
        → (filter : V → Bool)
        → Ok
            (scan d l.lower (prefix_upper_bound l.lower) >>= λ found. collect l.decode filter found)
    scan_collect-Ok l i o x filter =
        bind-Ok (scan d l.lower (prefix_upper_bound l.lower)) _ (serves.scans _ _) (λ found scanned.
          collect-Ok l.decode filter found (λ k s m.
            let inside = (scan_view d l.lower (prefix_upper_bound l.lower) found k s scanned).0 m in
            let (v, e, fits) = x.only_keys k s inside.0 inside.1 in
            (_, ap l.decode e ∙ l.decode-key v fits)))

  module _ (d : Db) (a : Attributes) (x : Indexes p r d a) (serves : Serves d) (name : Bytes)
      (n : IsName name) where
    pub string_scan-Ok :
        (filter : Bytes → Bool)
        → Ok (
            scan_distinct_string_values p d name filter >>= λ values.
            reconstruct_string_bitmaps_or p r d name values)
    unfolding scan_distinct_string_values reconstruct_string_bitmaps_or
    string_scan-Ok filter =
        bind-Ok (scan_distinct_string_values p d name filter) _
          (scan_collect-Ok d serves (string_layout name n) 0 (a.strings 0 name)
            (string-IndexedAt name n p r d a x 0) filter)
          (λ vs _. union_string-Ok d serves name new vs)

    pub numeric_scan-Ok :
        (filter : ℕ → Bool)
        → Ok (
            scan_distinct_numeric_values p d name filter >>= λ values.
            reconstruct_numeric_bitmaps_or p r d name values)
    unfolding scan_distinct_numeric_values reconstruct_numeric_bitmaps_or
    numeric_scan-Ok filter =
        bind-Ok (scan_distinct_numeric_values p d name filter) _
          (scan_collect-Ok d serves (numeric_layout name n) 0 (a.numbers 0 name)
            (numeric-IndexedAt name n p r d a x 0) filter)
          (λ vs _. union_numeric-Ok d serves name new vs)
