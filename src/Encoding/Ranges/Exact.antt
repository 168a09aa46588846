-- ===== src/Encoding/Ranges/Exact.antt =====
-- The range of a prefix holds the keys that begin with it, among those at least as long.
use mathlib.Core.List.{reverse, reverse-append, reverse-cons}
use mathlib.Core.Option
use pebble_bitmap_store_note.Prelude.{
  ℕ, ◌+◌, ◌<◌, ◌≤◌, ◌≡◌, refl, sym, ap, ◌∙◌, Bool, true, false, Option, none, some, [], ◌∷◌, ◌++◌,
  ◌==◌, Bytes, bytes_lt, if◌then◌else◌, length, arith, All, Option-cases, inl, inr,
}
use pebble_bitmap_store_note.Encoding.Integers.{byte}
use pebble_bitmap_store_note.Encoding.Ranges.{increment, prefix_upper_bound, in_range, has_prefix}

abbrev zeros : Bytes → Bytes
zeros [] = []
zeros (b ∷ bs) = 0 ∷ zeros bs

-- The same bound from the left: the tail first, and the head only where the tail is all 255.
unfoldable pub upper : Bytes → Option Bytes
upper [] = none
upper (b ∷ bs) = elim (upper bs) [
  | some u ↦ some (b ∷ u)
  | none ↦ if byte (b + 1) == 0 then none else some (byte (b + 1) ∷ zeros bs)
]

snoc-increment :
    (b : ℕ) (xs : Bytes)
    → increment (xs ++ (b ∷ [])) ≡ elim (increment xs) [
      | some u ↦ some (u ++ (b ∷ []))
      | none ↦ if byte (b + 1) == 0 then none else some (zeros xs ++ (byte (b + 1) ∷ []))
    ]
unfolding increment
snoc-increment b [] = ground arith
snoc-increment b (x ∷ xs) = ground (arith, snoc-increment b xs)

zeros-append : (xs ys : Bytes) → zeros (xs ++ ys) ≡ zeros xs ++ zeros ys
zeros-append [] ys = refl
zeros-append (x ∷ xs) ys = ap (λ s. 0 ∷ s) (zeros-append xs ys)

reverse-zeros : (xs : Bytes) → reverse (zeros (reverse xs)) ≡ zeros xs
reverse-zeros [] = refl
reverse-zeros (x ∷ xs) =
    rw (reverse-cons, zeros-append, reverse-append) (ap (λ s. 0 ∷ s) (reverse-zeros xs))

increment-snoc_none :
    (b : ℕ) (xs : Bytes)
    → increment xs ≡ none
    → increment (xs ++ (b ∷ []))
      ≡ (if byte (b + 1) == 0 then none else some (zeros xs ++ (byte (b + 1) ∷ [])))
increment-snoc_none b xs e = rw (snoc-increment, e)

increment-snoc_some :
    (b : ℕ) (xs u : Bytes)
    → increment xs ≡ some u
    → increment (xs ++ (b ∷ [])) ≡ some (u ++ (b ∷ []))
increment-snoc_some b xs u e = rw (snoc-increment, e)

map-if_none {ℓ κ} :
    {A : Type ℓ} {B : Type κ} (f : A → B) (t : Bool) (a : A)
    → Option.map f (if t then none else some a) ≡ (if t then none else some (f a))
map-if_none f true a = refl
map-if_none f false a = refl

pub prefix_upper_bound-upper : (p : Bytes) → prefix_upper_bound p ≡ upper p
unfolding prefix_upper_bound upper
prefix_upper_bound-upper [] = refl
prefix_upper_bound-upper (b ∷ bs) = elim (Option-cases (increment (reverse bs))) [
  | inl e ↦
      let left : upper bs ≡ none = sym (prefix_upper_bound-upper bs) ∙ ap (Option.map reverse) e in
      let back : reverse (zeros (reverse bs) ++ (byte (b + 1) ∷ [])) ≡ byte (b + 1) ∷ zeros bs =
        reverse-append (zeros (reverse bs)) (byte (b + 1) ∷ [])
        ∙ ap (λ s. byte (b + 1) ∷ s) (reverse-zeros bs) in
      rw left (
        ap (λ s. Option.map reverse (increment s)) (reverse-cons b bs)
        ∙ ap (Option.map reverse) (increment-snoc_none b (reverse bs) e)
        ∙ map-if_none reverse (byte (b + 1) == 0) (zeros (reverse bs) ++ (byte (b + 1) ∷ []))
        ∙ ap (λ s. if byte (b + 1) == 0 then none else some s) back)
  | inr (u, e) ↦
      let left : upper bs ≡ some (reverse u) =
        sym (prefix_upper_bound-upper bs) ∙ ap (Option.map reverse) e in
      rw left (
        ap (λ s. Option.map reverse (increment s)) (reverse-cons b bs)
        ∙ ap (Option.map reverse) (increment-snoc_some b (reverse bs) u e)
        ∙ ap some (reverse-append u (b ∷ [])))
]

-- A Go byte slice.
abbrev pub IsBytes : Bytes → Type 0
IsBytes = All (λ b. b < 256)

bytes_lt-zeros : (k p : Bytes) → length p ≤ length k → bytes_lt k (zeros p) ≡ false
unfolding bytes_lt
bytes_lt-zeros [] [] h = refl
bytes_lt-zeros [] (b ∷ p) h = absurd (omega arith)
bytes_lt-zeros (c ∷ k) [] h = refl
bytes_lt-zeros (c ∷ k) (b ∷ p) h = ground (arith, bytes_lt-zeros k p)

upper_exact :
    (p k : Bytes) → length p ≤ length k → IsBytes k → in_range p (upper p) k ≡ has_prefix p k
unfolding upper in_range has_prefix bytes_lt
upper_exact [] [] h v = refl
upper_exact [] (c ∷ k) h v = refl
upper_exact (b ∷ p) [] h v = absurd (omega arith)
upper_exact (b ∷ p) (c ∷ k) h v = elim (Option-cases (upper p)) [
  | inl e ↦ rw e (ground (arith, bytes_lt-zeros k p, upper_exact p k (omega arith) v.1, e))
  | inr (u, e) ↦ rw e (ground (arith, upper_exact p k (omega arith) v.1, e))
]

-- Among the keys that are at least as long as the prefix, a scan from the prefix to its upper
-- bound reads exactly those that begin with the prefix.
pub prefix_upper_bound-exact :
    (p k : Bytes)
    → length p ≤ length k
    → IsBytes k
    → in_range p (prefix_upper_bound p) k ≡ has_prefix p k
prefix_upper_bound-exact p k h v = rw prefix_upper_bound-upper (upper_exact p k h v)
