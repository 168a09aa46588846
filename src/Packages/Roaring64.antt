-- ===== src/Packages/Roaring64.antt =====
-- github.com/RoaringBitmap/roaring/v2/roaring64: a set of 64-bit numbers and its serialisation.
use pebble_bitmap_store_note.Prelude.{
  ℕ, ◌≡◌, ◌↔◌, Bool, true, false, not, ◌&&◌, ◌||◌, ◌==◌, List, any, Bytes, Result, ok,
}

pub record Roaring : Type 1 where
  pub Bitmap : Type 0
  -- `Contains`
  pub contains : Bitmap → ℕ → Bool
  -- `New`
  pub new : Bitmap
  pub add : Bitmap → ℕ → Bitmap
  pub add_many : Bitmap → List ℕ → Bitmap
  pub remove : Bitmap → ℕ → Bitmap
  pub or : Bitmap → Bitmap → Bitmap
  pub and : Bitmap → Bitmap → Bitmap
  pub is_empty : Bitmap → Bool
  pub run_optimize : Bitmap → Bitmap
  pub write_to : Bitmap → Result Bytes
  pub unmarshal_binary : Bytes → Result Bitmap
  pub contains-new : (i : ℕ) → contains new i ≡ false
  pub contains-add : (b : Bitmap) (i j : ℕ) → contains (add b i) j ≡ ((i == j) || contains b j)
  pub contains-add_many :
      (b : Bitmap) (ids : List ℕ) (i : ℕ)
      → contains (add_many b ids) i ≡ (any (λ j. i == j) ids || contains b i)
  pub contains-remove :
      (b : Bitmap) (i j : ℕ) → contains (remove b i) j ≡ (not (i == j) && contains b j)
  pub contains-or : (b c : Bitmap) (i : ℕ) → contains (or b c) i ≡ (contains b i || contains c i)
  pub contains-and : (b c : Bitmap) (i : ℕ) → contains (and b c) i ≡ (contains b i && contains c i)
  pub is_empty_iff : (b : Bitmap) → (is_empty b ≡ true) ↔ ((i : ℕ) → contains b i ≡ false)
  pub contains-run_optimize : (b : Bitmap) (i : ℕ) → contains (run_optimize b) i ≡ contains b i
  -- What `WriteTo` wrote, `UnmarshalBinary` reads.
  pub unmarshal-write :
      (b : Bitmap) (s : Bytes)
      → write_to b ≡ ok s
      → (c : Bitmap) × (unmarshal_binary s ≡ ok c) × ((i : ℕ) → contains c i ≡ contains b i)
