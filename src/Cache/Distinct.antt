-- ===== src/Cache/Distinct.antt =====
-- Maps of the cache with one bitmap for each name and value.
use pebble_bitmap_store_note.Prelude.{
  ◌≡◌, ◌↔◌, refl, ◌∙◌, Bool, true, none, [], ◌∷◌, Bytes, bytes_eq, bytes_eq_iff, ◌&&◌, arith,
  Bool-cases, inl, inr,
}
use pebble_bitmap_store_note.Cache.Overlay.{Entries, find, put, find-put}

module _ {V B : Type 0} (eq : V → V → Bool) (eq_iff : (v w : V) → (eq v w ≡ true) ↔ (v ≡ w))
    (Fits : Bytes → V → Type 0) where
  -- One bitmap for each name and value, all of them with a key that its decoder reads.
  abbrev pub IsOverlay : Entries V B → Type 0
  IsOverlay [] = Unit
  IsOverlay ((n, v, b) ∷ rest) = Fits n v × (find eq rest n v ≡ none) × IsOverlay rest

  pub put-IsOverlay :
      (entries : Entries V B) (name : Bytes) (value : V) (b : B)
      → Fits name value
      → IsOverlay entries
      → IsOverlay (put eq entries name value b)
  unfolding put find
  put-IsOverlay [] name value b fits h = (fits, refl, tt)
  put-IsOverlay ((n, v, old) ∷ rest) name value b fits h =
      elim (Bool-cases (bytes_eq n name && eq v value)) [
        | inl same ↦ rw same (h.0, h.1, h.2)
        | inr other ↦ rw other (
          h.0,
          find-put eq eq_iff rest name value b n v
              ∙ ground (
                arith,
                h.1,
                bytes_eq_iff n name,
                bytes_eq_iff name n,
                eq_iff v value,
                eq_iff value v,
              ),
          put-IsOverlay rest name value b fits h.2,
        )
      ]
