-- ===== src/Maps/Laws.antt =====
-- Looking up what was assigned, and the entries of a map with one entry for each key.
use pebble_bitmap_store_note.Prelude.{
  ◌≡◌, refl, sym, ap, ◌∙◌, inl, inr, true, Option, none, some, [], ◌∷◌, In, Bytes, bytes_eq,
  bytes_eq_iff, Bool-cases, if◌then◌else◌, arith, eq_of_some,
}
use pebble_bitmap_store_note.Maps.{Entries, get_entry, set_entry}

module _ {V : Type 0} where
  pub get_entry-set_entry :
      (m : Entries V) (k : Bytes) (v : V) (j : Bytes)
      → get_entry (set_entry m k v) j ≡ (if bytes_eq k j then some v else get_entry m j)
  unfolding get_entry set_entry
  get_entry-set_entry [] k v j = refl
  get_entry-set_entry ((i, w) ∷ m) k v j =
      grind
        (arith, get_entry-set_entry m k v j, bytes_eq_iff i k, bytes_eq_iff i j, bytes_eq_iff k j)

  -- One entry for each key.
  abbrev pub IsMap : Entries V → Type 0
  IsMap [] = Unit
  IsMap ((k, v) ∷ m) = (get_entry m k ≡ none) × IsMap m

  pub In-get_entry :
      (m : Entries V) (k : Bytes) (v : V) → IsMap m → In (k, v) m → get_entry m k ≡ some v
  unfolding get_entry
  In-get_entry [] k v h m = absurd m
  In-get_entry ((i, w) ∷ m) k v h (inl e) =
      let same : bytes_eq i k ≡ true = (bytes_eq_iff i k).1 (sym (ap (λ (x : Bytes × V). x.0) e)) in
      rw same (ap some (sym (ap (λ (x : Bytes × V). x.1) e)))
  In-get_entry ((i, w) ∷ m) k v h (inr there) = elim (Bool-cases (bytes_eq i k)) [
    | inl same ↦
        let found : get_entry m k ≡ some v = In-get_entry m k v h.1 there in
        let missing : get_entry m k ≡ none =
          ap (get_entry m) (sym ((bytes_eq_iff i k).0 same)) ∙ h.0 in
        absurd (none≢some (sym missing ∙ found))
    | inr other ↦ rw other (In-get_entry m k v h.1 there)
  ]
    where
      none≢some : ◌≡◌ {A = Option V} none (some v) → ⊥
      none≢some q = cc

  pub get_entry-In : (m : Entries V) (k : Bytes) (v : V) → get_entry m k ≡ some v → In (k, v) m
  unfolding get_entry
  get_entry-In [] k v h = cc
  get_entry-In ((i, w) ∷ m) k v h = elim (Bool-cases (bytes_eq i k)) [
    | inl same ↦
        let value : w ≡ v = eq_of_some (rw same at h) in
        inl (ap (λ j. (j, v)) (sym ((bytes_eq_iff i k).0 same)) ∙ ap (λ x. (i, x)) (sym value))
    | inr other ↦ inr (get_entry-In m k v (rw other at h))
  ]
