-- ===== src/QueryRpc/Tests/Answered.antt =====
-- A query on a database with the entity 7, its index and its record.
use pebble_bitmap_store_note.Prelude.{
  ℕ, ◌≡◌, ◌≤◌, ◌↔◌, refl, sym, ap, ◌∙◌, true, false, ◌&&◌, ◌==◌, ==_iff, Option, none, some, List,
  [], ◌∷◌, ◌++◌, In, map, Bytes, bytes_eq, Bool-cases, inl, inr, length, Result, ok, err, panic,
  arith,
}
use pebble_bitmap_store_note.Packages.InMemory.{
  Table, table_db, list_bitmaps, lookup, inside, visible,
}
use pebble_bitmap_store_note.Encoding.Integers.{put_uint64}
use pebble_bitmap_store_note.Encoding.Keys.{
  payload_key, string_bitmap_key, numeric_bitmap_key, prefix_string_bitmap, prefix_numeric_bitmap,
  last_block_key,
}
use pebble_bitmap_store_note.Encoding.Ranges.{in_range}
use pebble_bitmap_store_note.Query.Language.{
  number, TopLevel, Expression, expression, or_expression, or_end, and_expression, and_end,
  EqualExpr, filtered,
}
use pebble_bitmap_store_note.Query.Ast.{AstTerm}
use pebble_bitmap_store_note.Query.Depth.{depth}
use pebble_bitmap_store_note.Query.Meaning.{Leaves}
use pebble_bitmap_store_note.Query.Normalize.{
  is_hex_attribute, normalize, normalize_expression, normalize_or, normalize_equal_expr, cross,
  distribute,
}
use pebble_bitmap_store_note.Query.Normalize.Total.{TypedLeaf}
use pebble_bitmap_store_note.Index.Attributes.{Indexes}
use pebble_bitmap_store_note.Index.Bitmaps.Stored.{stored, decoded}
use pebble_bitmap_store_note.Evaluate.Sample.{a_name, sample_db, sample_attributes, sample-Indexes}
use pebble_bitmap_store_note.Evaluate.Asks.{asks, IsPlain}
use pebble_bitmap_store_note.Evaluate.Total.Scans.{Serves}
use pebble_bitmap_store_note.Maps.{attributes_json}
use pebble_bitmap_store_note.Store.{get_last_block}
use pebble_bitmap_store_note.Events.Flushed.{prefix_cons}
use pebble_bitmap_store_note.Events.Sample.{sample_env}
use pebble_bitmap_store_note.Events.Sample.Entities.{created}
use pebble_bitmap_store_note.QueryRpc.Options.{
  get_at_block, get_results_per_page, get_include_data, get_cursor,
}
use pebble_bitmap_store_note.QueryRpc.Entity.{to_payload}
use pebble_bitmap_store_note.QueryRpc.Query.{wait, query_entities}
use pebble_bitmap_store_note.QueryRpc.Descending.{IsDescending}
use pebble_bitmap_store_note.QueryRpc.Filled.{Cut}
use pebble_bitmap_store_note.QueryRpc.Answered.{Answering, below_cursor, query_entities-selects}
use pebble_bitmap_store_note.QueryRpc.Sample.{
  list_iterable, sort_by, sort_by-sorted, SampleRow, sample_record, one_each, show_row, shown,
}

abbrev whole_db : Table
whole_db = (payload_key 7, sample_record.0) ∷ sample_db

string_kept :
    (k : Bytes)
    → lookup whole_db (prefix_string_bitmap ∷ k) ≡ lookup sample_db (prefix_string_bitmap ∷ k)
unfolding lookup payload_key bytes_eq
string_kept k = refl

numeric_kept :
    (k : Bytes)
    → lookup whole_db (prefix_numeric_bitmap ∷ k) ≡ lookup sample_db (prefix_numeric_bitmap ∷ k)
unfolding lookup payload_key bytes_eq
numeric_kept k = refl

whole-Indexes : Indexes table_db list_bitmaps whole_db sample_attributes
unfolding stored string_bitmap_key numeric_bitmap_key
whole-Indexes = record {
  string_fits = sample-Indexes.string_fits;
  string_stored = λ i n v fits.
      ap (λ o. decoded table_db list_bitmaps o i) (string_kept _)
      ∙ sample-Indexes.string_stored i n v fits;
  string_keys = λ k s e h.
      let (rest, at) = prefix_cons prefix_string_bitmap k h in
      sample-Indexes.string_keys k s
        (ap (lookup sample_db) at ∙ sym (string_kept rest) ∙ ap (lookup whole_db) (sym at) ∙ e) h;
  number_fits = sample-Indexes.number_fits;
  number_stored = λ i n v fits.
      ap (λ o. decoded table_db list_bitmaps o i) (numeric_kept _)
      ∙ sample-Indexes.number_stored i n v fits;
  number_keys = λ k s e h.
      let (rest, at) = prefix_cons prefix_numeric_bitmap k h in
      sample-Indexes.number_keys k s
        (ap (lookup sample_db) at ∙ sym (numeric_kept rest) ∙ ap (lookup whole_db) (sym at) ∙ e) h;
}

whole-Serves : Serves table_db list_bitmaps whole_db
whole-Serves = record {
  gets = λ k. (lookup whole_db k, refl);
  scans = λ lower upper. (inside (in_range lower upper) (visible whole_db), refl);
  string_bitmaps = λ n v s h. (s, refl);
  numeric_bitmaps = λ n v s h. (s, refl);
}

-- a >= 1
abbrev from_one : AstTerm
from_one = AstTerm.greater_or_equal_than (record { var = a_name; value = number 1 })

abbrev from_one_query : Expression
from_one_query = expression (
    or_expression
      (and_expression (EqualExpr.greater_or_equal_than (record { var = a_name; value = number 1 }))
        and_end)
      or_end)

from_one-typed : Leaves TypedLeaf from_one_query
unfolding Leaves is_hex_attribute
from_one-typed = (((refl, tt)), tt)

normalize-from_one : normalize (λ s. s) (filtered from_one_query) ≡ ok (some ((from_one ∷ []) ∷ []))
unfolding normalize normalize_expression normalize_or normalize_equal_expr depth is_hex_attribute
    cross distribute
normalize-from_one = refl

from_one-IsPlain : IsPlain true from_one_query
unfolding IsPlain
from_one-IsPlain = ((tt, tt), tt)

abbrev parse_it : Bytes → Result TopLevel
parse_it s = ok (filtered from_one_query)

abbrev no_number : Bytes → Result ℕ
no_number s = err panic

abbrev number_text : ℕ → Bytes
number_text n = n ∷ []

is_seven : (i : ℕ) → asks (λ s. s) bytes_eq sample_attributes i true from_one_query ≡ true → i ≡ 7
unfolding asks bytes_eq
is_seven i h = elim (Bool-cases (i == 7)) [
  | inl e ↦ (==_iff i 7).0 e
  | inr e ↦ absurd (false≢true (rw e at h))
]
  where
    false≢true : false ≡ true → ⊥
    false≢true q = cc

seven_stored : lookup whole_db (payload_key 7) ≡ some sample_record.0
unfolding lookup payload_key put_uint64 bytes_eq
seven_stored = refl

answering :
    Answering table_db list_bitmaps list_iterable
      (attributes_json sample_env.string_json)
      (attributes_json sample_env.number_json)
      sort_by
      show_row
      (λ s. s)
      bytes_eq
      (λ ids. ids)
      parse_it
      no_number
      number_text
      (whole_db ∷ [])
      whole_db
      []
      one_each
      (λ i. asks (λ s. s) bytes_eq sample_attributes i true from_one_query)
      (λ i. created)
      shown
unfolding to_payload get_include_data
answering = record {
  sorts = λ rows h. sort_by-sorted (λ (row : SampleRow). row.id) rows h;
  reads = λ i h. (
    sample_record.0,
    ap ok (ap (λ j. lookup whole_db (payload_key j)) (is_seven i h) ∙ seven_stored),
    sample_record.2,
  );
  renders = λ i h. refl;
}

query_entities-selects_example :
    (taken rest : List ℕ) × (next : Option ℕ) × (query_entities table_db list_bitmaps list_iterable
        (attributes_json sample_env.string_json)
        (attributes_json sample_env.number_json)
        sort_by
        show_row
        (λ s. s)
        bytes_eq
        (λ ids. ids)
        parse_it
        no_number
        number_text
        (whole_db ∷ [])
        whole_db
        []
        one_each
      ≡ ok (record {
        results = map shown taken;
        block_number = 0;
        cursor = elim next as (λ _. Option Bytes) [ none ↦ none | some id ↦ some (number_text id) ];
      }))
    × IsDescending (taken ++ rest)
    × ((i : ℕ)
        → In i (taken ++ rest) ↔ (
            (asks (λ s. s) bytes_eq sample_attributes i true from_one_query && below_cursor none i)
            ≡ true))
    × Cut taken rest next
    × (length taken ≤ get_results_per_page one_each)
    × (get_results_per_page one_each ≤ 200)
unfolding get_results_per_page get_cursor get_at_block wait get_last_block lookup payload_key
    numeric_bitmap_key last_block_key bytes_eq
query_entities-selects_example =
    query_entities-selects table_db list_bitmaps list_iterable
      (attributes_json sample_env.string_json) (attributes_json sample_env.number_json) sort_by
      show_row (λ s. s) bytes_eq (λ ids. ids) parse_it no_number number_text (whole_db ∷ [])
      whole_db [] one_each sample_attributes from_one_query ((from_one ∷ []) ∷ []) none
      (λ i. created) shown [] [] whole_db 0 whole-Indexes whole-Serves tt refl refl (omega arith)
      refl from_one-typed from_one-IsPlain normalize-from_one
      ((record { short = omega arith; utf8 = omega arith }, tt), tt) refl (omega arith) answering
