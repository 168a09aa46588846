-- ===== src/QueryRpc/Tests.antt =====
-- The pages of two entities.
mod Answered
use pebble_bitmap_store_note.Prelude.{
  ℕ, ◌+◌, ◌≡◌, ◌≤◌, ◌⊎◌, inl, inr, refl, sym, ap, subst, Bool, true, Option, none, some, List, [],
  ◌∷◌, ◌++◌, map, bytes_eq, length, ok, err, out_of_fuel, arith,
}
use pebble_bitmap_store_note.Packages.InMemory.{Table, table_db, list_bitmaps, lookup}
use pebble_bitmap_store_note.Encoding.Integers.{put_uint64}
use pebble_bitmap_store_note.Encoding.Keys.{payload_key}
use pebble_bitmap_store_note.Maps.{attributes_json}
use pebble_bitmap_store_note.Events.Sample.{sample_env}
use pebble_bitmap_store_note.Events.Sample.Entities.{created}
use pebble_bitmap_store_note.QueryRpc.Options.{get_results_per_page, get_include_data}
use pebble_bitmap_store_note.QueryRpc.Entity.{to_payload}
use pebble_bitmap_store_note.QueryRpc.Pages.{fill_loop}
use pebble_bitmap_store_note.QueryRpc.Query.{page}
use pebble_bitmap_store_note.QueryRpc.Filled.{Cut}
use pebble_bitmap_store_note.QueryRpc.Paging.{
  Serving, pages_from, masked, pages_from-all, page-bounded,
}
use pebble_bitmap_store_note.QueryRpc.Endless.{fill_loop-zero}
use pebble_bitmap_store_note.QueryRpc.Sample.{
  list_iterable, sort_by, sort_by-sorted, descending, SampleRow, sample_record, one_each, show_row,
  shown,
}

abbrev two_rows : Table
two_rows = (payload_key 7, sample_record.0) ∷ (payload_key 9, sample_record.0) ∷ []

abbrev two_ids : List ℕ
two_ids = 7 ∷ 9 ∷ []

abbrev sample_sort : (SampleRow → SampleRow → Bool) → List SampleRow → List SampleRow
sample_sort = sort_by

two_rows-at :
    (i : ℕ)
    → list_bitmaps.contains two_ids i ≡ true
    → lookup two_rows (payload_key i) ≡ some sample_record.0
unfolding lookup payload_key put_uint64 bytes_eq
two_rows-at i h = at (ground arith)
  where
    at : (i ≡ 7) ⊎ (i ≡ 9) → lookup two_rows (payload_key i) ≡ some sample_record.0
    at (inl e) = subst (λ j. lookup two_rows (payload_key j) ≡ some sample_record.0) (sym e) refl
    at (inr e) = subst (λ j. lookup two_rows (payload_key j) ≡ some sample_record.0) (sym e) refl

sample-Serving :
    Serving table_db list_bitmaps list_iterable
      (attributes_json sample_env.string_json)
      (attributes_json sample_env.number_json)
      sample_sort
      show_row
      two_rows
      one_each
      two_ids
      (λ i. created)
      shown
unfolding to_payload get_include_data
sample-Serving = record {
  sorts = λ rows h. sort_by-sorted (λ (row : SampleRow). row.id) rows h;
  reads = λ i h. (sample_record.0, ap ok (two_rows-at i h), sample_record.2);
  renders = λ i h. refl;
}

pages_from-all_example :
    pages_from table_db list_bitmaps list_iterable
      (attributes_json sample_env.string_json)
      (attributes_json sample_env.number_json)
      sample_sort
      show_row
      two_rows
      one_each
      two_ids
      (length (descending two_ids) + 1)
      none
    ≡ ok (map shown (descending two_ids))
unfolding get_results_per_page
pages_from-all_example =
    pages_from-all table_db list_bitmaps list_iterable (attributes_json sample_env.string_json)
      (attributes_json sample_env.number_json) sample_sort show_row two_rows one_each two_ids
      (λ i. created) shown sample-Serving (omega arith)

page-bounded_example :
    (taken rest : List ℕ) × (next : Option ℕ) × (page table_db list_bitmaps list_iterable
        (attributes_json sample_env.string_json)
        (attributes_json sample_env.number_json)
        sample_sort
        show_row
        two_rows
        one_each
        (some two_ids)
        (some 9)
      ≡ ok (map shown taken, next))
    × (taken ++ rest
        ≡ descending (
            masked table_db list_bitmaps list_iterable
              (attributes_json sample_env.string_json)
              (attributes_json sample_env.number_json)
              sample_sort
              show_row
              two_rows
              one_each
              two_ids
              (some 9)))
    × Cut taken rest next
    × (length taken ≤ get_results_per_page one_each)
    × (get_results_per_page one_each ≤ 200)
unfolding get_results_per_page
page-bounded_example =
    page-bounded table_db list_bitmaps list_iterable (attributes_json sample_env.string_json)
      (attributes_json sample_env.number_json) sample_sort show_row two_rows one_each two_ids
      (λ i. created) shown sample-Serving (omega arith) (some 9)

fill_loop-zero_example :
    fill_loop (λ (i : ℕ). i) (λ i. ok []) ok 0 3 (9 ∷ 7 ∷ []) [] 0 ≡ err out_of_fuel
fill_loop-zero_example = fill_loop-zero (λ (i : ℕ). i) (λ i. ok []) ok 3 9 (7 ∷ []) refl
