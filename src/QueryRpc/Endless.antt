-- ===== src/QueryRpc/Endless.antt =====
-- Pages of no results.
use pebble_bitmap_store_note.Prelude.{
  ℕ, zero, suc, ◌≡◌, refl, List, [], ◌∷◌, Bytes, Result, ok, err, out_of_fuel,
}
use pebble_bitmap_store_note.QueryRpc.Pages.{next_batch_size, next_ids, row_loop, fill_loop}

module _ {Row : Type 0} (id_of : Row → ℕ) (render : Row → Result Bytes)
    (retrieve : List ℕ → Result (List Row)) where
  -- With no results for a page the loop does not end on any bitmap that is not empty, whatever its
  -- fuel, if no rows are read for no identifiers.
  pub fill_loop-zero :
      (fuel i : ℕ) (it : List ℕ)
      → retrieve [] ≡ ok []
      → fill_loop id_of render retrieve 0 fuel (i ∷ it) [] 0 ≡ err out_of_fuel
  unfolding fill_loop next_batch_size next_ids row_loop
  fill_loop-zero zero i it e = refl
  fill_loop-zero (suc fuel) i it e = rw e (fill_loop-zero fuel i it e)
