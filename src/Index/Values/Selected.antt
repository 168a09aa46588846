-- ===== src/Index/Values/Selected.antt =====
-- The union of the bitmaps of the values that a scan selected, for string and numeric attributes
-- alike: a layout of keys `key` for one attribute name, in a database that indexes a value `o` of
-- the identifier `i`.
use mathlib.Core.Bool.{false≢true}
use pebble_bitmap_store_note.Prelude.{
  ℕ, ◌≡◌, refl, sym, ap, ◌∙◌, inl, inr, Bool, true, Option, none, some, List, any, In, any-In,
  In-any, Bytes, Result, ok, ok-injective, subst, Option-cases, bool_ext, ◌↔◌,
}
use pebble_bitmap_store_note.Packages.PebbleDb.{Pebble}
use pebble_bitmap_store_note.Packages.Roaring64.{Roaring}
use pebble_bitmap_store_note.Encoding.Ranges.{in_range, prefix_upper_bound}
use pebble_bitmap_store_note.Index.Bitmaps.Stored.{stored, decoded}
use pebble_bitmap_store_note.Index.Values.{collect}
use pebble_bitmap_store_note.Index.Values.Scans.{In-collect, collect-In}
use pebble_bitmap_store_note.Index.Attributes.{passes}

-- How the keys of one attribute name are laid out.
pub record KeyLayout (V : Type 0) (name : Bytes) : Type 1 where
  pub key : V → Bytes
  pub decode : Bytes → Result (Bytes × V)
  pub lower : Bytes
  pub eq : V → V → Bool
  pub Fits : V → Type 0
  pub eq_iff : (v w : V) → (eq v w ≡ true) ↔ (v ≡ w)
  pub decode-key : (v : V) → Fits v → decode (key v) ≡ ok (name, v)
  pub key-in_range : (v : V) → Fits v → in_range lower (prefix_upper_bound lower) (key v) ≡ true

module _ (p : Pebble) (r : Roaring) where
  open p use {Db, view, scan, scan_view}

  -- A bitmap with a member stands at its key.
  stored-view :
      (d : Db) (k : Bytes) (i : ℕ) → stored p r d k i ≡ true → (s : Bytes) × (view d k ≡ some s)
  unfolding stored
  stored-view d k i h = elim (Option-cases (view d k)) [
    | inl e ↦ absurd (false≢true (sym (ap (λ o. decoded p r o i) e) ∙ h))
    | inr found ↦ found
  ]

  -- The keys of the name say of the identifier `i` that its value is `o`.
  pub record IndexedAt {V : Type 0} {name : Bytes} (l : KeyLayout V name) (d : Db) (i : ℕ)
      (o : Option V) : Type 0 where
    pub only_keys :
        (k s : Bytes)
        → view d k ≡ some s
        → in_range (l.lower) (prefix_upper_bound l.lower) k ≡ true
        → (v : V) × (k ≡ l.key v) × l.Fits v
    pub fits : (v : V) → o ≡ some v → l.Fits v
    pub at_key : (v : V) → l.Fits v → stored p r d (l.key v) i ≡ passes (λ w. l.eq w v) o

  module _ {V : Type 0} {name : Bytes} (l : KeyLayout V name) (d : Db) (i : ℕ) (o : Option V)
      (x : IndexedAt l d i o) (filter : V → Bool) (found : List (Bytes × Bytes)) (vs : List V)
      (scanned : scan d l.lower (prefix_upper_bound l.lower) ≡ ok found)
      (collected : collect l.decode filter found ≡ ok vs) where
    -- The bitmap at the key of `v` holds `i` only if `v` is its value.
    passes-eq : (v : V) (q : Option V) → passes (λ w. l.eq w v) q ≡ true → q ≡ some v
    passes-eq v none h = absurd (false≢true h)
    passes-eq v (some w) h = ap some ((l.eq_iff w v).0 h)

    -- A selected value whose bitmap holds `i` is the value of `i`.
    selected_passes : (v : V) → In v vs → stored p r d (l.key v) i ≡ true → passes filter o ≡ true
    selected_passes v m h =
        let (k, s, n, there, decoded_key, f) = In-collect l.decode filter found vs v collected m in
        let inside = (scan_view d l.lower (prefix_upper_bound l.lower) found k s scanned).0 there in
        let (w, e, w-fits) = x.only_keys k s inside.0 inside.1 in
        let same : w ≡ v =
          ap (λ (y : Bytes × V). y.1)
            (ok-injective (sym (l.decode-key w w-fits) ∙ ap l.decode (sym e) ∙ decoded_key)) in
        let held : passes (λ u. l.eq u v) o ≡ true =
          sym (x.at_key v (subst l.Fits same w-fits)) ∙ h in
        ap (passes filter) (passes-eq v o held) ∙ f

    -- The value of `i` is selected if it passes the filter.
    selects_value :
        (v : V) → o ≡ some v → filter v ≡ true → any (λ w. stored p r d (l.key w) i) vs ≡ true
    selects_value v e f =
        let fits = x.fits v e in
        let held : stored p r d (l.key v) i ≡ true =
          x.at_key v fits ∙ ap (passes (λ w. l.eq w v)) e ∙ (l.eq_iff v v).1 refl in
        let (s, there) = stored-view d (l.key v) i held in
        let listed =
          (scan_view d l.lower (prefix_upper_bound l.lower) found (l.key v) s scanned).1
            (there, l.key-in_range v fits) in
        any-In (λ w. stored p r d (l.key w) i) v vs
          (collect-In l.decode filter found vs (l.key v) s name v collected listed
            (l.decode-key v fits) f)
          held

    -- The bitmaps of the selected values together hold `i` exactly if its value passes the filter.
    pub union-selected : any (λ v. stored p r d (l.key v) i) vs ≡ passes filter o
    union-selected =
        bool_ext _ _
          (λ h.
            let (v, m, e) = In-any (λ v. stored p r d (l.key v) i) vs h in selected_passes v m e)
          (λ h. elim (Option-cases o) [
            | inl e ↦ absurd (false≢true (sym (ap (passes filter) e) ∙ h))
            | inr (v, e) ↦ selects_value v e (sym (ap (passes filter) e) ∙ h)
          ])
