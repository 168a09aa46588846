-- ===== src/Packages/InMemory/Tables.antt =====
-- An association list as a database: the first entry of a key counts.
use pebble_bitmap_store_note.Prelude.{
  ◌≡◌, refl, sym, ap, ◌∙◌, ◌↔◌, inl, inr, Bool, true, false, Option, none, some, List, [], ◌∷◌, In,
  Bytes, bytes_eq, bytes_eq_iff, In-if, if-In_head, if-In_tail, not, eq_of_some, ap₂, ok,
  ok-injective, arith, if◌then◌else◌, Bool-cases, subst,
}
use pebble_bitmap_store_note.Packages.PebbleDb.{Pebble, Reliable}
use pebble_bitmap_store_note.Encoding.Ranges.{in_range}

abbrev pub Table : Type 0
Table = List (Bytes × Bytes)

unfoldable pub lookup : Table → Bytes → Option Bytes
lookup [] k = none
lookup ((j, v) ∷ t) k = if bytes_eq j k then some v else lookup t k

unfoldable pub inside : (Bytes → Bool) → Table → Table
inside test [] = []
inside test ((k, v) ∷ t) = let rest = inside test t in if test k then (k, v) ∷ rest else rest

unfoldable pub without : Bytes → Table → Table
unfolding inside
without k = inside (λ j. not (bytes_eq k j))

-- The entries that count.
unfoldable pub visible : Table → Table
unfolding without
visible [] = []
visible ((k, v) ∷ t) = (k, v) ∷ without k (visible t)

lookup-without :
    (t : Table) (k j : Bytes) → lookup (without k t) j ≡ (if bytes_eq k j then none else lookup t j)
unfolding lookup without
lookup-without [] k j = ground arith
lookup-without ((i, v) ∷ t) k j =
    ground (arith, lookup-without t k j, bytes_eq_iff i j, bytes_eq_iff k i, bytes_eq_iff k j)

key_eq : {k j v w : Bytes} → ◌≡◌ {A = Bytes × Bytes} (k, v) (j, w) → k ≡ j
key_eq e = ap (λ (x : Bytes × Bytes). x.0) e

inside-In :
    (test : Bytes → Bool) (k v : Bytes) (t : Table)
    → In (k, v) (inside test t)
    → In (k, v) t × (test k ≡ true)
unfolding inside
inside-In test k v [] m = absurd m
inside-In test k v ((j, w) ∷ t) m = elim (In-if (test j) (j, w) (k, v) (inside test t) m) [
  | inl (passed, e) ↦ (inl e, ap test (key_eq e) ∙ passed)
  | inr m' ↦ let (there, passed) = inside-In test k v t m' in (inr there, passed)
]

In-inside :
    (test : Bytes → Bool) (k v : Bytes) (t : Table)
    → In (k, v) t
    → test k ≡ true
    → In (k, v) (inside test t)
unfolding inside
In-inside test k v [] m h = absurd m
In-inside test k v ((j, w) ∷ t) (inl e) h =
    if-In_head (test j) (j, w) (k, v) (inside test t) (ap test (sym (key_eq e)) ∙ h) e
In-inside test k v ((j, w) ∷ t) (inr m) h =
    if-In_tail (test j) (j, w) (k, v) (inside test t) (In-inside test k v t m h)

not-true : (b : Bool) → not b ≡ true → b ≡ false
not-true true h = cc
not-true false h = refl

In-visible : (k v : Bytes) (t : Table) → In (k, v) (visible t) → lookup t k ≡ some v
unfolding lookup visible
In-visible k v [] m = absurd m
In-visible k v ((j, w) ∷ t) (inl e) =
    let same : bytes_eq j k ≡ true = (bytes_eq_iff j k).1 (sym (key_eq e)) in
    rw same (ap some (sym (ap (λ (x : Bytes × Bytes). x.1) e)))
In-visible k v ((j, w) ∷ t) (inr m) =
    let (m', other) = inside-In (λ i. not (bytes_eq j i)) k v (visible t) m in
    rw (not-true (bytes_eq j k) other) (In-visible k v t m')

visible-In : (k v : Bytes) (t : Table) → lookup t k ≡ some v → In (k, v) (visible t)
unfolding lookup visible
visible-In k v [] h = cc
visible-In k v ((j, w) ∷ t) h = elim (Bool-cases (bytes_eq j k)) [
  | inl same ↦
      let value : w ≡ v = eq_of_some (rw same at h) in
      inl (ap₂ (λ (x y : Bytes). (x, y)) (sym ((bytes_eq_iff j k).0 same)) (sym value))
  | inr other ↦ inr (
      In-inside (λ i. not (bytes_eq j i)) k v (visible t) (visible-In k v t (rw other at h))
        (rw other))
]

pub table-scan_view :
    (d : Table) (test : Bytes → Bool) (k v : Bytes)
    → In (k, v) (inside test (visible d)) ↔ ((lookup d k ≡ some v) × (test k ≡ true))
table-scan_view d test k v = (
  λ m. let (there, passed) = inside-In test k v (visible d) m in (In-visible k v d there, passed),
  λ h. In-inside test k v (visible d) (visible-In k v d h.0) h.1,
)

pub table-delete_view :
    (d d' : Table) (k j : Bytes)
    → ok (without k d) ≡ ok d'
    → lookup d' j ≡ (if bytes_eq k j then none else lookup d j)
table-delete_view d d' k j h = ap (λ t. lookup t j) (sym (ok-injective h)) ∙ lookup-without d k j

pub table-set_view :
    (d d' : Table) (k v j : Bytes)
    → ok ((k, v) ∷ d) ≡ ok d'
    → lookup d' j ≡ (if bytes_eq k j then some v else lookup d j)
unfolding lookup
table-set_view d d' k v j h = ap (λ t. lookup t j) (sym (ok-injective h))

abbrev pub table_db : Pebble
table_db = record {
  Db = Table;
  view = lookup;
  get = λ d k. ok (lookup d k);
  set = λ d k v. ok ((k, v) ∷ d);
  delete = λ d k. ok (without k d);
  scan = λ d lower upper. ok (inside (in_range lower upper) (visible d));
  get_view = λ d k r h. sym (ok-injective h);
  set_view = table-set_view;
  delete_view = table-delete_view;
  scan_view = λ d lower upper found k v h.
      subst (λ t. In (k, v) t ↔ ((lookup d k ≡ some v) × (in_range lower upper k ≡ true)))
        (ok-injective h) (table-scan_view d (in_range lower upper) k v);
}

pub table-Reliable : Reliable table_db
table-Reliable = record {
  gets = λ d k. (lookup d k, refl);
  sets = λ d k v. ((k, v) ∷ d, refl);
  deletes = λ d k. (without k d, refl);
}
