-- ===== src/AllCurrent.antt =====
-- pebblestore/temporal_queries.go: the identifiers of all entities, read off the pointers from
-- entity keys to identifiers.
use pebble_bitmap_store_note.Prelude.{
  ℕ, List, [], ◌∷◌, Bytes, length, ◌==◌, Result, ok, ◌>>=◌, if◌then◌else◌,
}
use pebble_bitmap_store_note.Packages.PebbleDb.{Pebble}
use pebble_bitmap_store_note.Encoding.Integers.{uint64}
use pebble_bitmap_store_note.Encoding.Keys.{prefix_entity_current}
use pebble_bitmap_store_note.Encoding.Ranges.{prefix_upper_bound}

-- The loop over the iterator: values that are not of 8 bytes are passed over.
unfoldable pub collect_ids : List (Bytes × Bytes) → Result (List ℕ)
collect_ids [] = ok []
collect_ids ((key, val) ∷ rest) =
    let ids = collect_ids rest in
    if length val == 8 then (do id ← uint64 val; others ← ids; ok (id ∷ others)) else ids

module _ (p : Pebble) where
  open p use {Db, scan}

  -- `sort_descending` is `sort.Slice` with the order `>`.
  unfoldable pub evaluate_all_current : (List ℕ → List ℕ) → Db → Result (List ℕ)
  unfolding collect_ids
  evaluate_all_current sort_descending reader = do
    let lower = prefix_entity_current ∷ []
    found ← scan reader lower (prefix_upper_bound lower)
    ids ← collect_ids found
    ok (sort_descending ids)
