-- ===== src/QueryRpc/Pages.antt =====
-- pebblestore/query_rpc.go: `QueryEntities`. The reverse iterator of a bitmap is the list of its
-- members that it has still to yield. `render` is `json.Marshal` of `toPayload` of a row with the
-- options' fields; `parse` is `Parser.ParseString`.
use pebble_bitmap_store_note.Prelude.{
  ℕ, zero, suc, ◌+◌, ◌-◌, Bool, true, false, ◌||◌, ltb, leb, Option, none, some, List, [], ◌∷◌,
  ◌++◌, Bytes, length, Result, ok, err, out_of_fuel, ◌>>=◌, if◌then◌else◌,
}
use pebble_bitmap_store_note.Encoding.Integers.{u64}

abbrev pub max_result_bytes : ℕ
max_result_bytes = 536870912

-- What a batch of rows leaves of the loop: to go on with the results and their bytes, or to stop
-- with the results and the identifier of the last.
pub data Fill : Type 0 where
  more : List Bytes → ℕ → Fill
  full : List Bytes → ℕ → Fill

abbrev pub stop_or : Bool → Fill → Result Fill → Result Fill
stop_or true filled rest = ok filled
stop_or false filled rest = rest

unfoldable pub next_ids : ℕ → List ℕ → List ℕ × List ℕ
next_ids zero it = ([], it)
next_ids (suc max) [] = ([], [])
next_ids (suc max) (i ∷ it) = let (ids, rest) = next_ids max it in (i ∷ ids, rest)

-- min(maxResults-uint64(len(res.Data)), 10)
unfoldable pub next_batch_size : ℕ → ℕ → ℕ
next_batch_size max_results count =
    let open_results = u64 (max_results + 18446744073709551616 - u64 count) in
    if ltb open_results 10 then open_results else 10

module _ {Row : Type 0} (id_of : Row → ℕ) (render : Row → Result Bytes)
    (retrieve : List ℕ → Result (List Row)) (max_results : ℕ) where
  unfoldable pub row_loop : List Row → List Bytes → ℕ → Result Fill
  row_loop [] data_so_far total_bytes = ok (more data_so_far total_bytes)
  row_loop (payload ∷ payloads) data_so_far total_bytes = do
    d ← render payload
    let data_now = data_so_far ++ (d ∷ [])
    let total_now = u64 (total_bytes + length d)
    let rest = row_loop payloads data_now total_now
    stop_or (ltb max_result_bytes total_now || leb max_results (length data_now))
        (full data_now (id_of payload)) rest

  -- The loop, with fuel: the results, and the cursor if it is not finished.
  unfoldable pub fill_loop : ℕ → List ℕ → List Bytes → ℕ → Result (List Bytes × Option ℕ)
  unfolding next_ids next_batch_size row_loop
  fill_loop fuel [] data_so_far total_bytes = ok (data_so_far, none)
  fill_loop zero (i ∷ it) data_so_far total_bytes = err out_of_fuel
  fill_loop (suc fuel) (i ∷ it) data_so_far total_bytes =
      let (ids, rest) = next_ids (next_batch_size max_results (length data_so_far)) (i ∷ it) in
      retrieve ids >>= λ payloads. row_loop payloads data_so_far total_bytes >>= λ filled.
      elim filled [
        | more data_now total_now ↦ fill_loop fuel rest data_now total_now
        | full data_now last_id ↦ ok (data_now, some last_id)
      ]
