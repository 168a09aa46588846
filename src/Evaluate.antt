-- ===== src/Evaluate.antt =====
-- pebblestore/evaluate.go: a normalised query as a bitmap of entity identifiers.
pub mod Satisfies
pub mod Asks
pub mod Asked
pub mod Terms
pub mod Queries
pub mod Total
pub mod Select
pub mod Sample
mod Tests
use pebble_bitmap_store_note.Prelude.{
  ℕ, Bool, true, false, Option, none, some, List, [], ◌∷◌, Bytes, Result, ok, err, panic, ◌>>=◌,
}
use pebble_bitmap_store_note.Packages.PebbleDb.{Pebble}
use pebble_bitmap_store_note.Packages.Roaring64.{Roaring}
use pebble_bitmap_store_note.Query.Language.{
  string, number, Glob, LessThan, LessOrEqualThan, GreaterThan, GreaterOrEqualThan, Equality,
  Inclusion,
}
use pebble_bitmap_store_note.Query.Ast.{
  AstTerm, AstAnd, AstOr, Ast, assign, inclusion, less_than, less_or_equal_than, greater_than,
  greater_or_equal_than, glob,
}
use pebble_bitmap_store_note.AllCurrent.{evaluate_all_current}
use pebble_bitmap_store_note.Index.Bitmaps.{get_string_bitmap, get_numeric_bitmap}
use pebble_bitmap_store_note.Index.Values.{
  matching_string_values_not_equal, matching_string_values_less_than,
  matching_string_values_greater_than, matching_string_values_less_or_equal_than,
  matching_string_values_greater_or_equal_than, matching_string_values_glob,
  matching_string_values_not_glob, matching_string_values_inclusion,
  matching_string_values_not_inclusion, matching_numeric_values_not_equal,
  matching_numeric_values_less_than, matching_numeric_values_greater_than,
  matching_numeric_values_less_or_equal_than, matching_numeric_values_greater_or_equal_than,
  matching_numeric_values_inclusion, matching_numeric_values_not_inclusion,
}

module _ (p : Pebble) (r : Roaring) where
  open p use {Db}
  open r use {Bitmap, new, add_many, or, and}

  -- The loops of `reconstructStringBitmapsOR` and `reconstructNumericBitmapsOR`, over the union so
  -- far.
  unfoldable pub union_string_bitmaps : Db → Bytes → Bitmap → List Bytes → Result Bitmap
  union_string_bitmaps reader name bm [] = ok bm
  union_string_bitmaps reader name bm (v ∷ values) = do
    b ← get_string_bitmap p r reader name v
    union_string_bitmaps reader name (or bm b) values

  unfoldable pub reconstruct_string_bitmaps_or : Db → Bytes → List Bytes → Result Bitmap
  unfolding union_string_bitmaps
  reconstruct_string_bitmaps_or reader name values = union_string_bitmaps reader name new values

  unfoldable pub union_numeric_bitmaps : Db → Bytes → Bitmap → List ℕ → Result Bitmap
  union_numeric_bitmaps reader name bm [] = ok bm
  union_numeric_bitmaps reader name bm (v ∷ values) = do
    b ← get_numeric_bitmap p r reader name v
    union_numeric_bitmaps reader name (or bm b) values

  unfoldable pub reconstruct_numeric_bitmaps_or : Db → Bytes → List ℕ → Result Bitmap
  unfolding union_numeric_bitmaps
  reconstruct_numeric_bitmaps_or reader name values = union_numeric_bitmaps reader name new values

  unfoldable pub evaluate_less_than : Db → LessThan → Result Bitmap
  evaluate_less_than reader e = elim e.value [
    | string s ↦ do
      values ← matching_string_values_less_than p reader e.var s
      reconstruct_string_bitmaps_or reader e.var values
    | number n ↦ do
      values ← matching_numeric_values_less_than p reader e.var n
      reconstruct_numeric_bitmaps_or reader e.var values
  ]

  unfoldable pub evaluate_less_or_equal_than : Db → LessOrEqualThan → Result Bitmap
  evaluate_less_or_equal_than reader e = elim e.value [
    | string s ↦ do
      values ← matching_string_values_less_or_equal_than p reader e.var s
      reconstruct_string_bitmaps_or reader e.var values
    | number n ↦ do
      values ← matching_numeric_values_less_or_equal_than p reader e.var n
      reconstruct_numeric_bitmaps_or reader e.var values
  ]

  unfoldable pub evaluate_greater_than : Db → GreaterThan → Result Bitmap
  evaluate_greater_than reader e = elim e.value [
    | string s ↦ do
      values ← matching_string_values_greater_than p reader e.var s
      reconstruct_string_bitmaps_or reader e.var values
    | number n ↦ do
      values ← matching_numeric_values_greater_than p reader e.var n
      reconstruct_numeric_bitmaps_or reader e.var values
  ]

  unfoldable pub evaluate_greater_or_equal_than : Db → GreaterOrEqualThan → Result Bitmap
  evaluate_greater_or_equal_than reader e = elim e.value [
    | string s ↦ do
      values ← matching_string_values_greater_or_equal_than p reader e.var s
      reconstruct_string_bitmaps_or reader e.var values
    | number n ↦ do
      values ← matching_numeric_values_greater_or_equal_than p reader e.var n
      reconstruct_numeric_bitmaps_or reader e.var values
  ]

  unfoldable pub evaluate_equality : Db → Equality → Result Bitmap
  evaluate_equality reader e = elim e.value [
    | string s ↦ elim e.is_not [
      | true ↦ do
        values ← matching_string_values_not_equal p reader e.var s
        reconstruct_string_bitmaps_or reader e.var values
      | false ↦ get_string_bitmap p r reader e.var s
    ]
    | number n ↦ elim e.is_not [
      | true ↦ do
        values ← matching_numeric_values_not_equal p reader e.var n
        reconstruct_numeric_bitmaps_or reader e.var values
      | false ↦ get_numeric_bitmap p r reader e.var n
    ]
  ]

  -- `len(e.Values.Strings) != 0` chooses the strings.
  unfoldable pub evaluate_inclusion : Db → Inclusion → Result Bitmap
  evaluate_inclusion reader e = elim e.values.strings [
    | ◌∷◌ s rest ↦ do
      values ← elim e.is_not [
        | true ↦ matching_string_values_not_inclusion p reader e.var (s ∷ rest)
        | false ↦ matching_string_values_inclusion p reader e.var (s ∷ rest)
      ]
      reconstruct_string_bitmaps_or reader e.var values
    | [] ↦ do
      values ← elim e.is_not [
        | true ↦ matching_numeric_values_not_inclusion p reader e.var e.values.numbers
        | false ↦ matching_numeric_values_inclusion p reader e.var e.values.numbers
      ]
      reconstruct_numeric_bitmaps_or reader e.var values
  ]

  -- Bitmaps that may be nil, as the accumulator `tmp` of the two loops below is at first.
  unfoldable pub join :
      (Bitmap → Bitmap → Bitmap) → Option Bitmap → Option Bitmap → Result (Option Bitmap)
  join op none bm = ok bm
  join op (some tmp) none = err panic
  join op (some tmp) (some bm) = ok (some (op tmp bm))

  module _ (path_match : Bytes → Bytes → Bool) where
    unfoldable pub evaluate_glob : Db → Glob → Result Bitmap
    evaluate_glob reader e = do
      values ← elim e.is_not [
        | true ↦ matching_string_values_not_glob p path_match reader e.var e.value
        | false ↦ matching_string_values_glob p path_match reader e.var e.value
      ]
      reconstruct_string_bitmaps_or reader e.var values

    unfoldable pub evaluate_term : Db → AstTerm → Result Bitmap
    evaluate_term reader (assign e) = evaluate_equality reader e
    evaluate_term reader (inclusion e) = evaluate_inclusion reader e
    evaluate_term reader (less_than e) = evaluate_less_than reader e
    evaluate_term reader (less_or_equal_than e) = evaluate_less_or_equal_than reader e
    evaluate_term reader (greater_than e) = evaluate_greater_than reader e
    evaluate_term reader (greater_or_equal_than e) = evaluate_greater_or_equal_than reader e
    evaluate_term reader (glob e) = evaluate_glob reader e

    unfoldable pub and_loop : Db → Option Bitmap → AstAnd → Result (Option Bitmap)
    unfolding join
    and_loop reader tmp [] = ok tmp
    and_loop reader tmp (term ∷ terms) = do
      bm ← evaluate_term reader term
      tmp' ← join and tmp (some bm)
      and_loop reader tmp' terms

    unfoldable pub evaluate_and : Db → AstAnd → Result (Option Bitmap)
    evaluate_and reader terms = and_loop reader none terms

    unfoldable pub or_loop : Db → Option Bitmap → AstOr → Result (Option Bitmap)
    unfolding join
    or_loop reader tmp [] = ok tmp
    or_loop reader tmp (conjunction ∷ conjunctions) = do
      bm ← evaluate_and reader conjunction
      tmp' ← join or tmp bm
      or_loop reader tmp' conjunctions

    unfoldable pub evaluate_expr : Db → AstOr → Result (Option Bitmap)
    evaluate_expr reader conjunctions = or_loop reader none conjunctions

    -- `sort_descending` is `sort.Slice` with the order `>`.
    unfoldable pub evaluate_ast : (List ℕ → List ℕ) → Db → Ast → Result (Option Bitmap)
    evaluate_ast sort_descending reader none = do
      ids ← evaluate_all_current p sort_descending reader
      ok (some (add_many new ids))
    evaluate_ast sort_descending reader (some conjunctions) = evaluate_expr reader conjunctions
