-- ===== src/QueryRpc/Options.antt =====
-- pebblestore/query_rpc.go: the options, a pointer that may be nil. `decode_uint64` is
-- `hexutil.DecodeUint64`.
use pebble_bitmap_store_note.Prelude.{
  ℕ, ◌≤◌, arith, Bool, true, false, ltb, Option, none, some, [], Bytes, bytes_eq, Result, ok, ◌>>=◌,
  if◌then◌else◌,
}

pub record IncludeData : Type 0 where
  pub key : Bool
  pub attributes : Bool
  pub synthetic_attributes : Bool
  pub payload : Bool
  pub content_type : Bool
  pub expiration : Bool
  pub creator : Bool
  pub owner : Bool
  pub created_at_block : Bool
  pub last_modified_at_block : Bool
  pub transaction_index_in_block : Bool
  pub operation_index_in_transaction : Bool

pub record Options : Type 0 where
  pub at_block : Option ℕ
  pub include_data : Option IncludeData
  pub results_per_page : Option ℕ
  pub cursor : Bytes

abbrev pub query_result_count_limit : ℕ
query_result_count_limit = 200

abbrev pub or_limit : Option ℕ → ℕ
or_limit none = query_result_count_limit
or_limit (some n) = if ltb query_result_count_limit n then query_result_count_limit else n

unfoldable pub get_at_block : Option Options → ℕ
get_at_block none = 0
get_at_block (some o) = elim o.at_block [ none ↦ 0 | some n ↦ n ]

unfoldable pub get_results_per_page : Option Options → ℕ
get_results_per_page none = query_result_count_limit
get_results_per_page (some o) = or_limit o.results_per_page

pub get_results_per_page-limit : (o : Option Options) → get_results_per_page o ≤ 200
unfolding get_results_per_page
get_results_per_page-limit none = omega arith
get_results_per_page-limit (some o) = in_limit o.results_per_page
  where
    in_limit : (n : Option ℕ) → or_limit n ≤ 200
    in_limit none = omega arith
    in_limit (some n) = ground arith

abbrev pub default_include_data : IncludeData
default_include_data = record {
  key = true;
  attributes = true;
  synthetic_attributes = false;
  payload = true;
  content_type = true;
  expiration = true;
  creator = true;
  owner = true;
  created_at_block = false;
  last_modified_at_block = false;
  transaction_index_in_block = false;
  operation_index_in_transaction = false;
}

unfoldable pub get_include_data : Option Options → IncludeData
get_include_data none = default_include_data
get_include_data (some o) = elim o.include_data [ none ↦ default_include_data | some i ↦ i ]

unfoldable pub get_cursor : (Bytes → Result ℕ) → Option Options → Result (Option ℕ)
get_cursor decode_uint64 none = ok none
get_cursor decode_uint64 (some o) =
    let decoded : Result (Option ℕ) = (do cursor ← decode_uint64 o.cursor; ok (some cursor)) in
    if bytes_eq o.cursor [] then ok none else decoded
