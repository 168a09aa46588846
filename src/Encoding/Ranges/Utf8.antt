-- ===== src/Encoding/Ranges/Utf8.antt =====
-- A prefix whose last byte is below 255, as that of a UTF-8 text is: its range needs no condition
-- on the keys.
use pebble_bitmap_store_note.Prelude.{
  ℕ, ◌<◌, ◌≡◌, refl, sym, ap₂, true, ◌++◌, subst, some, [], ◌∷◌, Bytes, bytes_lt, arith, ◌+◌,
}
use pebble_bitmap_store_note.Encoding.Ranges.{prefix_upper_bound, in_range, has_prefix}
use pebble_bitmap_store_note.Encoding.Ranges.Exact.{upper, prefix_upper_bound-upper}

abbrev pub EndsBelow : Bytes → Type 0
EndsBelow [] = ⊥
EndsBelow (b ∷ []) = b < 255
EndsBelow (b ∷ c ∷ p) = EndsBelow (c ∷ p)

-- Under an equal head the range of the tails decides, and under another head nothing is inside.
same_head :
    (b d : ℕ) (p k u : Bytes)
    → in_range p (some u) k ≡ has_prefix p k
    → in_range (b ∷ p) (some (b ∷ u)) (d ∷ k) ≡ has_prefix (b ∷ p) (d ∷ k)
unfolding in_range has_prefix bytes_lt
same_head b d p k u rest = ground arith

upper-some : (p : Bytes) → EndsBelow p → (u : Bytes) × (upper p ≡ some u)
unfolding upper
upper-some [] e = absurd e
upper-some (b ∷ []) e = ((b + 1) ∷ [], ground arith)
upper-some (b ∷ c ∷ p) e = let (u, h) = upper-some (c ∷ p) e in (b ∷ u, rw h)

upper-cons_some : (b : ℕ) (p u : Bytes) → upper p ≡ some u → upper (b ∷ p) ≡ some (b ∷ u)
unfolding upper
upper-cons_some b p u h = rw h

upper-single : (b : ℕ) → b < 255 → upper (b ∷ []) ≡ some ((b + 1) ∷ [])
unfolding upper
upper-single b h = ground arith

upper_exact_below : (p k : Bytes) → EndsBelow p → in_range p (upper p) k ≡ has_prefix p k
unfolding in_range has_prefix bytes_lt
upper_exact_below [] k e = absurd e
upper_exact_below (b ∷ []) [] e = refl
upper_exact_below (b ∷ []) (c ∷ []) e = rw (upper-single b e) (ground arith)
upper_exact_below (b ∷ []) (c ∷ d ∷ k) e = rw (upper-single b e) (ground arith)
upper_exact_below (b ∷ c ∷ p) [] e = refl
upper_exact_below (b ∷ c ∷ p) (d ∷ k) e =
    let (u, h) = upper-some (c ∷ p) e in
    let rest : in_range (c ∷ p) (some u) k ≡ has_prefix (c ∷ p) k =
      subst (λ o. in_range (c ∷ p) o k ≡ has_prefix (c ∷ p) k) h (upper_exact_below (c ∷ p) k e) in
    subst (λ o. in_range (b ∷ c ∷ p) o (d ∷ k) ≡ has_prefix (b ∷ c ∷ p) (d ∷ k))
      (sym (upper-cons_some b (c ∷ p) u h)) (same_head b d (c ∷ p) k u rest)

pub in_range-has_prefix :
    (p k : Bytes) → EndsBelow p → in_range p (prefix_upper_bound p) k ≡ has_prefix p k
in_range-has_prefix p k e = rw prefix_upper_bound-upper (upper_exact_below p k e)

pub has_prefix-append : (p s : Bytes) → has_prefix p (p ++ s) ≡ true
unfolding has_prefix
has_prefix-append [] s = refl
has_prefix-append (b ∷ p) s = ground (arith, has_prefix-append p s)

pub has_prefix-split : (p k : Bytes) → has_prefix p k ≡ true → (s : Bytes) × (k ≡ p ++ s)
unfolding has_prefix
has_prefix-split [] k h = (k, refl)
has_prefix-split (b ∷ p) [] h = cc
has_prefix-split (b ∷ p) (c ∷ k) h =
    let (s, e) = has_prefix-split p k (ground arith) in
    let heads : b ≡ c = ground arith in (s, ap₂ ◌∷◌ (sym heads) e)
