-- ===== src/Events/Among.antt =====
-- The pairs that a range over an attribute map goes through, and the values that the map has.
use pebble_bitmap_store_note.Prelude.{
  ℕ, ◌≡◌, ◌↔◌, refl, sym, ap, ◌∙◌, Bool, true, false, not, ◌&&◌, ◌==◌, ==_iff, Option, none, some,
  [], ◌∷◌, any, In, any-In, In-any, bool_ext, inl, inr, Option-cases, Bool-cases, Bytes, bytes_eq,
  bytes_eq_iff, bytes_eq_refl, if◌then◌else◌, arith,
}
use pebble_bitmap_store_note.Index.Attributes.{passes}
use pebble_bitmap_store_note.Maps.{Entries, get_entry}
use pebble_bitmap_store_note.Maps.Laws.{IsMap, In-get_entry, get_entry-In}
use pebble_bitmap_store_note.Events.Attributes.{is_not_indexed}
use pebble_bitmap_store_note.Events.Holds.{string_among, number_among}

-- The numeric attributes that have bitmaps.
abbrev pub indexed_number : Entries ℕ → Bytes → Option ℕ
indexed_number m n = if is_not_indexed n then none else get_entry m n

true≢false : true ≡ false → ⊥
true≢false q = cc

both : (a b : Bool) → (a && b) ≡ true → (a ≡ true) × (b ≡ true)
both true true h = (refl, refl)
both true false h = cc
both false b h = cc

module _ {V : Type 0} (eq : V → V → Bool) (eq_iff : (v w : V) → (eq v w ≡ true) ↔ (v ≡ w)) where
  abbrev pair_among : Bytes → V → Entries V → Bool
  pair_among m w kvs = any (λ (kv : Bytes × V). bytes_eq kv.0 m && eq kv.1 w) kvs

  pair_among-passes :
      (entries listed : Entries V)
      → IsMap entries
      → ((kv : Bytes × V) → In kv listed ↔ In kv entries)
      → (m : Bytes) (w : V) → pair_among m w listed ≡ passes (λ v. eq v w) (get_entry entries m)
  pair_among-passes entries listed unique same m w = bool_ext _ _ to from
    where
      to : pair_among m w listed ≡ true → passes (λ v. eq v w) (get_entry entries m) ≡ true
      to h =
          let (kv, there, e) = In-any (λ (kv : Bytes × V). bytes_eq kv.0 m && eq kv.1 w) listed h in
          let (name, value) = both (bytes_eq kv.0 m) (eq kv.1 w) e in
          let found : get_entry entries kv.0 ≡ some kv.1 =
            In-get_entry entries kv.0 kv.1 unique ((same kv).0 there) in
          rw (sym (ap (get_entry entries) ((bytes_eq_iff kv.0 m).0 name)) ∙ found) value

      from : passes (λ v. eq v w) (get_entry entries m) ≡ true → pair_among m w listed ≡ true
      from h = elim (Option-cases (get_entry entries m)) [
        | inl e ↦ absurd (true≢false (sym h ∙ ap (passes (λ v. eq v w)) e))
        | inr (v, e) ↦
            let value : eq v w ≡ true = sym (ap (passes (λ x. eq x w)) e) ∙ h in
            any-In (λ (kv : Bytes × V). bytes_eq kv.0 m && eq kv.1 w) (m, v) listed
              ((same (m, v)).1 (get_entry-In entries m v e)) (rw (bytes_eq_refl m) value)
      ]

pub string_among-passes :
    (entries listed : Entries Bytes)
    → IsMap entries
    → ((kv : Bytes × Bytes) → In kv listed ↔ In kv entries)
    → (m w : Bytes) → string_among m w listed ≡ passes (λ v. bytes_eq v w) (get_entry entries m)
string_among-passes = pair_among-passes bytes_eq bytes_eq_iff

-- The test of the name stands before the loop's.
number_among-split :
    (m : Bytes) (w : ℕ) (kvs : Entries ℕ)
    → number_among m w kvs ≡ (not (is_not_indexed m) && pair_among (λ v x. v == x) ==_iff m w kvs)
number_among-split m w [] = ground arith
number_among-split m w ((k, v) ∷ rest) = elim (Bool-cases (bytes_eq k m)) [
  | inl same ↦ rw (number_among-split m w rest, same, (bytes_eq_iff k m).0 same) (ground arith)
  | inr other ↦ rw (number_among-split m w rest, other) (ground arith)
]

pub number_among-passes :
    (entries listed : Entries ℕ)
    → IsMap entries
    → ((kv : Bytes × ℕ) → In kv listed ↔ In kv entries)
    → (m : Bytes) (w : ℕ)
    → number_among m w listed ≡ passes (λ v. v == w) (indexed_number entries m)
number_among-passes entries listed unique same m w =
    number_among-split m w listed
    ∙ ap (λ t. not (is_not_indexed m) && t)
        (pair_among-passes (λ v x. v == x) ==_iff entries listed unique same m w)
    ∙ ground arith
