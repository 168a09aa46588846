-- ===== src/Cache/Overlay.antt =====
-- The maps of the cache, by attribute name and value.
use pebble_bitmap_store_note.Prelude.{
  ℕ, ◌≡◌, refl, Bool, true, ◌&&◌, ◌==◌, Option, none, some, List, [], ◌∷◌, Bytes, bytes_eq,
  bytes_eq_iff, ◌↔◌, if◌then◌else◌, arith,
}

-- `map[nameValue[T]]*store.Bitmap`
abbrev pub Entries : Type 0 → Type 0 → Type 0
Entries V B = List (Bytes × V × B)

abbrev pub same_number : ℕ → ℕ → Bool
same_number m n = m == n

module _ {V B : Type 0} (eq : V → V → Bool) where
  unfoldable pub find : Entries V B → Bytes → V → Option B
  find [] name value = none
  find ((n, v, b) ∷ rest) name value =
      if bytes_eq n name && eq v value then some b else find rest name value

  -- Setting the entry of a key, at its place or at the end.
  unfoldable pub put : Entries V B → Bytes → V → B → Entries V B
  put [] name value bitmap = (name, value, bitmap) ∷ []
  put ((n, v, b) ∷ rest) name value bitmap =
      let after = put rest name value bitmap in
      if bytes_eq n name && eq v value then (n, v, bitmap) ∷ rest else (n, v, b) ∷ after

  module _ (eq_iff : (v w : V) → (eq v w ≡ true) ↔ (v ≡ w)) where
    pub find-put :
        (entries : Entries V B) (name : Bytes) (value : V) (bitmap : B) (m : Bytes) (w : V)
        → find (put entries name value bitmap) m w
          ≡ (if bytes_eq name m && eq value w then some bitmap else find entries m w)
    unfolding find put
    find-put [] name value bitmap m w = refl
    find-put ((n, v, b) ∷ rest) name value bitmap m w = grind (
      arith,
      find-put rest name value bitmap m w,
      bytes_eq_iff n name,
      bytes_eq_iff n m,
      bytes_eq_iff name m,
      eq_iff v value,
      eq_iff v w,
      eq_iff value w,
    )
