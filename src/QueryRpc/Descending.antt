-- ===== src/QueryRpc/Descending.antt =====
-- Lists of identifiers from the highest to the lowest.
use pebble_bitmap_store_note.Prelude.{
  ℕ, ◌≡◌, ◌<◌, ◌↔◌, ◌⊎◌, inl, inr, refl, sym, ap₂, List, [], ◌∷◌, ◌++◌, In, All, arith,
}

-- Each number is above those that follow.
abbrev pub IsDescending : List ℕ → Type 0
IsDescending [] = Unit
IsDescending (i ∷ ids) = All (λ j. j < i) ids × IsDescending ids

In-below : (b : ℕ) (xs : List ℕ) (i : ℕ) → All (λ j. j < b) xs → In i xs → i < b
In-below b [] i h m = absurd m
In-below b (x ∷ xs) i h (inl e) = let top : x < b = h.0 in omega arith
In-below b (x ∷ xs) i h (inr m) = In-below b xs i h.1 m

pub append_right-IsDescending : (xs ys : List ℕ) → IsDescending (xs ++ ys) → IsDescending ys
append_right-IsDescending [] ys h = h
append_right-IsDescending (x ∷ xs) ys h = append_right-IsDescending xs ys h.1

below_left : (b : ℕ) (xs ys : List ℕ) → All (λ j. j < b) (xs ++ ys) → All (λ j. j < b) xs
below_left b [] ys h = tt
below_left b (x ∷ xs) ys h = (h.0, below_left b xs ys h.1)

pub append_left-IsDescending : (xs ys : List ℕ) → IsDescending (xs ++ ys) → IsDescending xs
append_left-IsDescending [] ys h = tt
append_left-IsDescending (x ∷ xs) ys h =
    (below_left x xs ys h.0, append_left-IsDescending xs ys h.1)

-- Two such lists with the same members are one.
pub IsDescending-ext :
    (xs ys : List ℕ) → IsDescending xs → IsDescending ys → ((i : ℕ) → In i xs ↔ In i ys) → xs ≡ ys
IsDescending-ext [] [] h k same = refl
IsDescending-ext [] (y ∷ ys) h k same = absurd ((same y).1 (inl refl))
IsDescending-ext (x ∷ xs) [] h k same = absurd ((same x).0 (inl refl))
IsDescending-ext (x ∷ xs) (y ∷ ys) h k same =
    ap₂ (λ (i : ℕ) (l : List ℕ). i ∷ l) head_same
      (IsDescending-ext xs ys h.1 k.1 (λ i. (
        λ m. to_tail x y xs ys h.0 head_same i m ((same i).0 (inr m)),
        λ m. to_tail y x ys xs k.0 (sym head_same) i m ((same i).1 (inr m)),
      )))
  where
    below : (a b : ℕ) (bs : List ℕ) → All (λ j. j < b) bs → In a (b ∷ bs) → (a ≡ b) ⊎ (a < b)
    below a b bs h (inl e) = inl e
    below a b bs h (inr m) = inr (In-below b bs a h m)

    head_same : x ≡ y
    head_same = elim (below x y ys k.0 ((same x).0 (inl refl))) [
      | inl e ↦ e
      | inr lt ↦ elim (below y x xs h.0 ((same y).1 (inl refl))) [
        | inl e ↦ sym e
        | inr lt' ↦ absurd (omega arith)
      ]
    ]

    to_tail :
        (a b : ℕ) (ls ks : List ℕ)
        → All (λ j. j < a) ls
        → a ≡ b
        → (i : ℕ) → In i ls
        → In i (b ∷ ks)
        → In i ks
    to_tail a b ls ks h e i m (inl e') =
        let lt : i < a = In-below a ls i h m in absurd (omega arith)
    to_tail a b ls ks h e i m (inr m') = m'

-- What stands behind a member is what is below it.
pub behind :
    (before rest : List ℕ) (c i : ℕ)
    → IsDescending (before ++ (c ∷ rest))
    → In i rest ↔ (In i (before ++ (c ∷ rest)) × (i < c))
behind [] rest c i h = (λ m. (inr m, In-below c rest i h.0 m), λ m. not_first i m.0 m.1)
  where
    not_first : (j : ℕ) → In j (c ∷ rest) → j < c → In j rest
    not_first j (inl e) lt = absurd (omega arith)
    not_first j (inr m) lt = m
behind (b ∷ before) rest c i h = (
  λ m. let (m', lt) = (behind before rest c i h.1).0 m in (inr m', lt),
  λ m. (behind before rest c i h.1).1 (not_above m.0 m.1, m.1),
)
  where
    above : c < b
    above = In-below b (before ++ (c ∷ rest)) c h.0 (at_end before)
      where
        at_end : (xs : List ℕ) → In c (xs ++ (c ∷ rest))
        at_end [] = inl refl
        at_end (x ∷ xs) = inr (at_end xs)

    not_above : In i (b ∷ (before ++ (c ∷ rest))) → i < c → In i (before ++ (c ∷ rest))
    not_above (inl e) lt = let up : c < b = above in absurd (omega arith)
    not_above (inr m) lt = m
