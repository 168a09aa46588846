-- ===== src/Index/Values.antt =====
-- pebblestore/value_queries.go: the distinct values of an attribute, read off the keys of the index
-- by a scan of the attribute's prefix, and filtered. `path_match` is the `matched` of Go's
-- `path.Match`, whose error the code drops. A Go map that is only tested for its keys is a list.
pub mod Scans
pub mod Selected
use pebble_bitmap_store_note.Prelude.{
  ℕ, Bool, not, List, [], ◌∷◌, any, Bytes, bytes_eq, bytes_lt, ltb, leb, ◌==◌, Result, ok, ◌>>=◌,
  if◌then◌else◌,
}
use pebble_bitmap_store_note.Packages.PebbleDb.{Pebble}
use pebble_bitmap_store_note.Encoding.Keys.{
  string_bitmap_name_prefix, numeric_bitmap_name_prefix, decode_string_bitmap_key,
  decode_numeric_bitmap_key,
}
use pebble_bitmap_store_note.Encoding.Ranges.{prefix_upper_bound}

-- The loop over an iterator: `decode` a key, and keep its value if it passes the filter.
unfoldable pub collect :
    {V : Type 0}
    → (Bytes → Result (Bytes × V))
    → (V → Bool)
    → List (Bytes × Bytes)
    → Result (List V)
collect decode filter [] = ok []
collect decode filter ((key, entry) ∷ rest) = do
  (_, value) ← decode key
  results ← collect decode filter rest
  ok (if filter value then value ∷ results else results)

module _ (p : Pebble) where
  open p use {Db, scan}

  unfoldable pub scan_distinct_string_values : Db → Bytes → (Bytes → Bool) → Result (List Bytes)
  unfolding collect
  scan_distinct_string_values reader name filter = do
    let lower = string_bitmap_name_prefix name
    found ← scan reader lower (prefix_upper_bound lower)
    collect decode_string_bitmap_key filter found

  unfoldable pub scan_distinct_numeric_values : Db → Bytes → (ℕ → Bool) → Result (List ℕ)
  unfolding collect
  scan_distinct_numeric_values reader name filter = do
    let lower = numeric_bitmap_name_prefix name
    found ← scan reader lower (prefix_upper_bound lower)
    collect decode_numeric_bitmap_key filter found

  unfoldable pub matching_string_values_equal : Db → Bytes → Bytes → Result (List Bytes)
  matching_string_values_equal reader name value =
      scan_distinct_string_values reader name (λ v. bytes_eq v value)

  unfoldable pub matching_string_values_not_equal : Db → Bytes → Bytes → Result (List Bytes)
  matching_string_values_not_equal reader name value =
      scan_distinct_string_values reader name (λ v. not (bytes_eq v value))

  unfoldable pub matching_string_values_less_than : Db → Bytes → Bytes → Result (List Bytes)
  matching_string_values_less_than reader name value =
      scan_distinct_string_values reader name (λ v. bytes_lt v value)

  unfoldable pub matching_string_values_greater_than : Db → Bytes → Bytes → Result (List Bytes)
  matching_string_values_greater_than reader name value =
      scan_distinct_string_values reader name (λ v. bytes_lt value v)

  unfoldable pub matching_string_values_less_or_equal_than :
      Db → Bytes → Bytes → Result (List Bytes)
  matching_string_values_less_or_equal_than reader name value =
      scan_distinct_string_values reader name (λ v. not (bytes_lt value v))

  unfoldable pub matching_string_values_greater_or_equal_than :
      Db → Bytes → Bytes → Result (List Bytes)
  matching_string_values_greater_or_equal_than reader name value =
      scan_distinct_string_values reader name (λ v. not (bytes_lt v value))

  module _ (path_match : Bytes → Bytes → Bool) where
    unfoldable pub matching_string_values_glob : Db → Bytes → Bytes → Result (List Bytes)
    matching_string_values_glob reader name glob_pattern =
        scan_distinct_string_values reader name (λ v. path_match glob_pattern v)

    unfoldable pub matching_string_values_not_glob : Db → Bytes → Bytes → Result (List Bytes)
    matching_string_values_not_glob reader name glob_pattern =
        scan_distinct_string_values reader name (λ v. not (path_match glob_pattern v))

  unfoldable pub matching_string_values_inclusion : Db → Bytes → List Bytes → Result (List Bytes)
  matching_string_values_inclusion reader name values =
      scan_distinct_string_values reader name (λ v. any (bytes_eq v) values)

  unfoldable pub matching_string_values_not_inclusion :
      Db → Bytes → List Bytes → Result (List Bytes)
  matching_string_values_not_inclusion reader name values =
      scan_distinct_string_values reader name (λ v. not (any (bytes_eq v) values))

  unfoldable pub matching_numeric_values_equal : Db → Bytes → ℕ → Result (List ℕ)
  matching_numeric_values_equal reader name value =
      scan_distinct_numeric_values reader name (λ v. v == value)

  unfoldable pub matching_numeric_values_not_equal : Db → Bytes → ℕ → Result (List ℕ)
  matching_numeric_values_not_equal reader name value =
      scan_distinct_numeric_values reader name (λ v. not (v == value))

  unfoldable pub matching_numeric_values_less_than : Db → Bytes → ℕ → Result (List ℕ)
  matching_numeric_values_less_than reader name value =
      scan_distinct_numeric_values reader name (λ v. ltb v value)

  unfoldable pub matching_numeric_values_greater_than : Db → Bytes → ℕ → Result (List ℕ)
  matching_numeric_values_greater_than reader name value =
      scan_distinct_numeric_values reader name (λ v. ltb value v)

  unfoldable pub matching_numeric_values_less_or_equal_than : Db → Bytes → ℕ → Result (List ℕ)
  matching_numeric_values_less_or_equal_than reader name value =
      scan_distinct_numeric_values reader name (λ v. leb v value)

  unfoldable pub matching_numeric_values_greater_or_equal_than : Db → Bytes → ℕ → Result (List ℕ)
  matching_numeric_values_greater_or_equal_than reader name value =
      scan_distinct_numeric_values reader name (λ v. leb value v)

  unfoldable pub matching_numeric_values_inclusion : Db → Bytes → List ℕ → Result (List ℕ)
  matching_numeric_values_inclusion reader name values =
      scan_distinct_numeric_values reader name (λ v. any (λ w. v == w) values)

  unfoldable pub matching_numeric_values_not_inclusion : Db → Bytes → List ℕ → Result (List ℕ)
  matching_numeric_values_not_inclusion reader name values =
      scan_distinct_numeric_values reader name (λ v. not (any (λ w. v == w) values))
