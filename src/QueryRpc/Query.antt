-- ===== src/QueryRpc/Query.antt =====
-- pebblestore/query_rpc.go: `QueryEntities` from the wait for the requested block to the response.
-- `databases` are those that the polls see until the three seconds are over, and `snap` is the
-- snapshot. `parse` is `Parser.ParseString`; `render` is `json.Marshal` of
-- `toPayload`, `decode_uint64` and `encode_uint64` are of hexutil.
use pebble_bitmap_store_note.Prelude.{
  ℕ, ◌≡◌, ◌↔◌, Bool, true, false, ◌&&◌, ◌||◌, ltb, leb, Option, none, some, List, [], ◌∷◌, In,
  Bytes, length, Result, ok, err, panic, timed_out, ◌>>=◌,
}
use pebble_bitmap_store_note.Packages.PebbleDb.{Pebble}
use pebble_bitmap_store_note.Packages.Roaring64.{Roaring}
use pebble_bitmap_store_note.Packages.Json.{Json}
use pebble_bitmap_store_note.Query.Language.{TopLevel}
use pebble_bitmap_store_note.Query.Normalize.{normalize}
use pebble_bitmap_store_note.Store.{get_last_block}
use pebble_bitmap_store_note.Payloads.Operations.{PayloadRow, retrieve_payloads}
use pebble_bitmap_store_note.Evaluate.{evaluate_ast}
use pebble_bitmap_store_note.QueryRpc.Options.{
  Options, IncludeData, get_at_block, get_results_per_page, get_include_data, get_cursor,
}
use pebble_bitmap_store_note.QueryRpc.Descending.{IsDescending}
use pebble_bitmap_store_note.QueryRpc.Pages.{fill_loop}

-- The block number of a response is never set.
pub record QueryResponse : Type 0 where
  pub results : List Bytes
  pub block_number : ℕ
  pub cursor : Option Bytes

-- roaring64: `AddRange`, and `ReverseIterator` as what it yields.
pub record Iterable (r : Roaring) : Type 0 where
  pub add_range : r.Bitmap → ℕ → ℕ → r.Bitmap
  pub reverse : r.Bitmap → List ℕ
  pub contains-add_range :
      (b : r.Bitmap) (low high i : ℕ)
      → r.contains (add_range b low high) i ≡ ((leb low i && ltb i high) || r.contains b i)
  pub reverse_In : (b : r.Bitmap) (i : ℕ) → In i (reverse b) ↔ (r.contains b i ≡ true)
  pub reverse-IsDescending : (b : r.Bitmap) → IsDescending (reverse b)

module _ (p : Pebble) (r : Roaring) (iterable : Iterable r) {S N : Type 0} (strings : Json S)
    (numbers : Json N)
    (sort_slice : (PayloadRow S N → PayloadRow S N → Bool)
      → List (PayloadRow S N)
      → List (PayloadRow S N))
    (render : IncludeData → PayloadRow S N → Result Bytes) where
  open p use {Db}
  open r use {Bitmap, new, and}

  -- The page of an evaluated query; a nil bitmap panics. The fuel is more than the identifiers.
  unfoldable pub page :
      Db → Option Options → Option Bitmap → Option ℕ → Result (List Bytes × Option ℕ)
  page snap options none cursor = err panic
  page snap options (some bitmap) cursor =
      let masked : Bitmap = elim cursor [
        | none ↦ bitmap
        | some c ↦ and bitmap (iterable.add_range new 0 c)
      ] in
      fill_loop (λ (row : PayloadRow S N). row.id) (render (get_include_data options))
        (retrieve_payloads p strings numbers sort_slice snap) (get_results_per_page options)
        (length (iterable.reverse masked)) (iterable.reverse masked) [] 0

  -- The loop of the wait.
  unfoldable pub wait : ℕ → List Db → Result (Unit {0})
  wait at_block [] = err timed_out
  wait at_block (db ∷ later) = do
    last_block ← get_last_block p db
    elim (leb at_block last_block) [ true ↦ ok tt | false ↦ wait at_block later ]

  unfoldable pub query_entities :
      (Bytes → Bytes)
      → (Bytes → Bytes → Bool)
      → (List ℕ → List ℕ)
      → (Bytes → Result TopLevel)
      → (Bytes → Result ℕ)
      → (ℕ → Bytes)
      → List Db
      → Db
      → Bytes
      → Option Options
      → Result QueryResponse
  unfolding page wait
  query_entities to_lower path_match sort_descending parse decode_uint64 encode_uint64 databases
        snap query_str options =
      do
        ready ← wait (get_at_block options) databases
        top ← parse query_str
        q ← normalize to_lower top
        bitmap ← evaluate_ast p r path_match sort_descending snap q
        cursor ← get_cursor decode_uint64 options
        (results, last_id) ← page snap options bitmap cursor
        ok (record {
          results = results;
          block_number = 0;
          cursor = elim last_id [ none ↦ none | some id ↦ some (encode_uint64 id) ];
        })
