-- ===== src/Encoding/Slices.antt =====
-- Go's slice expressions. A bound past the length panics here; Go lets it reach the capacity.
use pebble_bitmap_store_note.Prelude.{
  ℕ, ◌+◌, ◌-◌, ◌<◌, ◌≡◌, refl, ap, true, ◌&&◌, List, [], ◌∷◌, ◌++◌, arith, length, length-append,
  take, drop, leb, le→leb, if◌then◌else◌, Result, ok, err, panic,
}

module _ {ℓ} {A : Type ℓ} where
  -- s[lo:hi]
  unfoldable pub slice : ℕ → ℕ → List A → Result (List A)
  slice lo hi s =
      if leb lo hi && leb hi (length s) then ok (take (hi - lo) (drop lo s)) else err panic

  -- s[lo:]
  unfoldable pub slice_from : ℕ → List A → Result (List A)
  slice_from lo s = if leb lo (length s) then ok (drop lo s) else err panic

  pub drop-append : (xs ys : List A) → drop (length xs) (xs ++ ys) ≡ ys
  drop-append [] ys = refl
  drop-append (x ∷ xs) ys = drop-append xs ys

  pub take-append : (xs ys : List A) → take (length xs) (xs ++ ys) ≡ xs
  take-append [] ys = refl
  take-append (x ∷ xs) ys = rw (take-append xs ys)

  -- The part between a prefix and a suffix, at numbers that are their lengths.
  pub slice-middle :
      (xs ys zs : List A) (lo hi : ℕ)
      → lo ≡ length xs
      → hi ≡ length xs + length ys
      → slice lo hi (xs ++ (ys ++ zs)) ≡ ok ys
  unfolding slice
  slice-middle xs ys zs lo hi p q =
      let inside : leb hi (length (xs ++ (ys ++ zs))) ≡ true =
        le→leb _ _ (omega (arith, length-append xs (ys ++ zs), length-append ys zs)) in
      let ordered : leb lo hi ≡ true = le→leb lo hi (omega arith) in
      let width : hi - lo ≡ length ys = omega arith in
      rw (ordered, inside, width, p, drop-append) (ap ok (take-append ys zs))

  pub slice_from-append :
      (xs ys : List A) (lo : ℕ) → lo ≡ length xs → slice_from lo (xs ++ ys) ≡ ok ys
  unfolding slice_from
  slice_from-append xs ys lo p =
      let inside : leb lo (length (xs ++ ys)) ≡ true =
        le→leb _ _ (omega (arith, length-append xs ys)) in
      rw (inside, p, drop-append)

  pub slice-panics : (lo hi : ℕ) (s : List A) → hi < lo → slice lo hi s ≡ err panic
  unfolding slice
  slice-panics lo hi s h = ground arith
