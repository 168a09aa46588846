-- ===== src/Packages/InMemory/Sets.antt =====
-- A list of numbers as a bitmap, which is its own serialisation.
use pebble_bitmap_store_note.Prelude.{
  ℕ, ◌≡◌, refl, sym, ap, ◌∙◌, ◌↔◌, Bool, true, false, not, ◌&&◌, ◌||◌, ◌==◌, List, [], ◌∷◌, ◌++◌,
  any, any-append, ok, ok-injective, arith, if◌then◌else◌, Bool-cases, inl, inr, ==_iff,
}
use pebble_bitmap_store_note.Packages.Roaring64.{Roaring}

abbrev pub has : List ℕ → ℕ → Bool
has b i = any (λ j. i == j) b

unfoldable pub keep : (ℕ → Bool) → List ℕ → List ℕ
keep test [] = []
keep test (j ∷ b) = let rest = keep test b in if test j then j ∷ rest else rest

pub has-keep : (test : ℕ → Bool) (b : List ℕ) (i : ℕ) → has (keep test b) i ≡ (has b i && test i)
unfolding keep
has-keep test [] i = refl
has-keep test (j ∷ b) i = elim (Bool-cases (test j)) [
  | inl e ↦ rw e (ground (arith, has-keep test b i, e, ==_iff i j))
  | inr e ↦ rw e (ground (arith, has-keep test b i, e, ==_iff i j))
]

unfoldable pub empty : List ℕ → Bool
empty [] = true
empty (j ∷ b) = false

pub empty_iff : (b : List ℕ) → (empty b ≡ true) ↔ ((i : ℕ) → has b i ≡ false)
unfolding empty
empty_iff [] = (λ _ i. refl, λ _. refl)
empty_iff (j ∷ b) = (λ h. cc, λ h. ground (arith, h j))

swap : (s t : Bool) → (s && t) ≡ (t && s)
swap s t = ground arith

pub flip_test : (i j : ℕ) (t : Bool) → ((j == i) || t) ≡ ((i == j) || t)
flip_test i j t = ground arith

pub has-remove :
    (b : List ℕ) (i j : ℕ) → has (keep (λ k. not (i == k)) b) j ≡ (not (i == j) && has b j)
has-remove b i j = has-keep (λ k. not (i == k)) b j ∙ swap (has b j) (not (i == j))

abbrev pub list_bitmaps : Roaring
list_bitmaps = record {
  Bitmap = List ℕ;
  contains = has;
  new = [];
  add = λ b i. i ∷ b;
  add_many = λ b ids. ids ++ b;
  remove = λ b i. keep (λ j. not (i == j)) b;
  or = λ b c. b ++ c;
  and = λ b c. keep (has c) b;
  is_empty = empty;
  run_optimize = λ b. b;
  write_to = λ b. ok b;
  unmarshal_binary = λ s. ok s;
  contains-new = λ i. refl;
  contains-add = λ b i j. flip_test i j (has b j);
  contains-add_many = λ b ids i. any-append (λ j. i == j) ids b;
  contains-remove = has-remove;
  contains-or = λ b c i. any-append (λ j. i == j) b c;
  contains-and = λ b c i. has-keep (has c) b i;
  is_empty_iff = empty_iff;
  contains-run_optimize = λ b i. refl;
  unmarshal-write = λ b s h. (s, refl, λ i. ap (λ t. has t i) (sym (ok-injective h)));
}
