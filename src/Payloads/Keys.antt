-- ===== src/Payloads/Keys.antt =====
-- Lists of entity keys without repetition, and taking one out.
use pebble_bitmap_store_note.Prelude.{
  ◌+◌, ◌≡◌, ◌≢◌, sym, ◌∙◌, subst, true, false, List, [], ◌∷◌, In, inl, inr, Bytes, bytes_eq,
  bytes_eq_iff, length, Bool-cases, if◌then◌else◌, arith,
}

-- No entity key is listed twice.
abbrev pub Unique : List Bytes → Type 0
Unique [] = Unit
Unique (k ∷ ks) = (In k ks → ⊥) × Unique ks

unfoldable pub without_key : Bytes → List Bytes → List Bytes
without_key key [] = []
without_key key (k ∷ ks) = let rest = without_key key ks in if bytes_eq key k then ks else k ∷ rest

pub In-without_key :
    (key k : Bytes) (ks : List Bytes) → Unique ks → In k (without_key key ks) → In k ks × (k ≢ key)
unfolding without_key
In-without_key key k [] u m = absurd m
In-without_key key k (x ∷ ks) u m = elim (Bool-cases (bytes_eq key x)) [
  | inl same ↦
      let m' : In k ks = rw same at m in
      (inr m', λ e. u.0 (subst (λ y. In y ks) (e ∙ (bytes_eq_iff key x).0 same) m'))
  | inr other ↦
      let m' : In k (x ∷ without_key key ks) = rw other at m in
      elim m' [
        | inl e ↦ (inl e, λ q. true≢false (sym ((bytes_eq_iff key x).1 (sym q ∙ e)) ∙ other))
        | inr m'' ↦ let (there, differ) = In-without_key key k ks u.1 m'' in (inr there, differ)
      ]
]
  where
    true≢false : true ≡ false → ⊥
    true≢false h = cc

pub without_key-In :
    (key k : Bytes) (ks : List Bytes) → In k ks → k ≢ key → In k (without_key key ks)
unfolding without_key
without_key-In key k [] m differ = absurd m
without_key-In key k (x ∷ ks) (inl e) differ = elim (Bool-cases (bytes_eq key x)) [
  | inl same ↦ absurd (differ (e ∙ sym ((bytes_eq_iff key x).0 same)))
  | inr other ↦ rw other (inl e)
]
without_key-In key k (x ∷ ks) (inr m) differ = elim (Bool-cases (bytes_eq key x)) [
  | inl same ↦ rw same m
  | inr other ↦ rw other (inr (without_key-In key k ks m differ))
]

pub without_key-Unique : (key : Bytes) (ks : List Bytes) → Unique ks → Unique (without_key key ks)
unfolding without_key
without_key-Unique key [] u = u
without_key-Unique key (x ∷ ks) u = elim (Bool-cases (bytes_eq key x)) [
  | inl same ↦ rw same u.1
  | inr other ↦
      rw other ((λ m. u.0 (In-without_key key x ks u.1 m).0, without_key-Unique key ks u.1))
]

pub length-without_key :
    (key : Bytes) (ks : List Bytes) → In key ks → length (without_key key ks) + 1 ≡ length ks
unfolding without_key
length-without_key key [] m = absurd m
length-without_key key (x ∷ ks) (inl e) = rw ((bytes_eq_iff key x).1 e) (omega arith)
length-without_key key (x ∷ ks) (inr m) = elim (Bool-cases (bytes_eq key x)) [
  | inl same ↦ rw same (omega arith)
  | inr other ↦ rw other (omega (arith, length-without_key key ks m))
]
