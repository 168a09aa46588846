-- ===== src/Index/Values/Scans.antt =====
-- What a scan of an attribute's prefix returns, and the union of the bitmaps of what it returned.
use pebble_bitmap_store_note.Prelude.{
  In-if, if-In_head, if-In_tail, ◌≡◌, refl, sym, ap, ◌∙◌, inl, inr, Bool, true, List, [], ◌∷◌, In,
  Bytes, Result, ok, >>=-eq-ok, ok-injective, subst,
}
use pebble_bitmap_store_note.Index.Values.{collect}

module _ {V : Type 0} (decode : Bytes → Result (Bytes × V)) (filter : V → Bool) where
  -- What the loop collects is a decoded value of some key that passes the filter.
  pub In-collect :
      (kvs : List (Bytes × Bytes)) (vs : List V) (v : V)
      → collect decode filter kvs ≡ ok vs
      → In v vs
      → (k s n : Bytes) × In (k, s) kvs × (decode k ≡ ok (n, v)) × (filter v ≡ true)
  unfolding collect
  In-collect [] vs v h m = absurd (subst (In v) (sym (ok-injective h)) m)
  In-collect ((key, entry) ∷ rest) vs v h m =
      let (nv, decoded, h') = >>=-eq-ok (decode key) _ h in
      let (results, collected, h'') = >>=-eq-ok (collect decode filter rest) _ h' in
      elim (In-if (filter nv.1) nv.1 v results (subst (In v) (sym (ok-injective h'')) m)) [
        | inl (passed, e) ↦ (
          key,
          entry,
          nv.0,
          inl refl,
          decoded ∙ ap (λ w. ok (nv.0, w)) (sym e),
          ap filter e ∙ passed,
        )
        | inr m' ↦
            let (k, s, n, there, d, f) = In-collect rest results v collected m' in
            (k, s, n, inr there, d, f)
      ]

  -- Every value that passes the filter is collected.
  pub collect-In :
      (kvs : List (Bytes × Bytes)) (vs : List V) (k s n : Bytes) (v : V)
      → collect decode filter kvs ≡ ok vs
      → In (k, s) kvs
      → decode k ≡ ok (n, v)
      → filter v ≡ true
      → In v vs
  unfolding collect
  collect-In [] vs k s n v h m e f = absurd m
  collect-In ((key, entry) ∷ rest) vs k s n v h (inl q) e f =
      let (nv, decoded, h') = >>=-eq-ok (decode key) _ h in
      let (results, collected, h'') = >>=-eq-ok (collect decode filter rest) _ h' in
      let same : nv ≡ (n, v) =
        ok-injective (sym decoded ∙ ap (λ (x : Bytes × Bytes). decode x.0) (sym q) ∙ e) in
      let value : nv.1 ≡ v = ap (λ (x : Bytes × V). x.1) same in
      let passed : filter nv.1 ≡ true = ap filter value ∙ f in
      subst (In v) (ok-injective h'') (if-In_head (filter nv.1) nv.1 v results passed (sym value))
  collect-In ((key, entry) ∷ rest) vs k s n v h (inr m) e f =
      let (nv, decoded, h') = >>=-eq-ok (decode key) _ h in
      let (results, collected, h'') = >>=-eq-ok (collect decode filter rest) _ h' in
      subst (In v) (ok-injective h'')
        (if-In_tail (filter nv.1) nv.1 v results (collect-In rest results k s n v collected m e f))
