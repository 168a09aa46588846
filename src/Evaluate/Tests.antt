-- ===== src/Evaluate/Tests.antt =====
-- Queries over a database that indexes one entity, and the theorems there.
use pebble_bitmap_store_note.Evaluate.Sample.{a_name, sample_db, sample_attributes, sample-Indexes}
use pebble_bitmap_store_note.Prelude.{
  arith, ℕ, ◌≡◌, refl, Bool, true, some, List, [], ◌∷◌, Bytes, bytes_eq, bytes_lt, ok,
}
use pebble_bitmap_store_note.Packages.InMemory.{table_db, list_bitmaps, lookup, inside, visible}
use pebble_bitmap_store_note.Query.Language.{
  number, Expression, expression, or_expression, or_end, and_expression, and_end, EqualExpr, paren,
  filtered,
}
use pebble_bitmap_store_note.Query.Ast.{AstTerm, ast_holds}
use pebble_bitmap_store_note.Query.Depth.{depth}
use pebble_bitmap_store_note.Query.Invert.{invert_expression, invert_and, invert_equal_expr}
use pebble_bitmap_store_note.Query.Meaning.{Leaves}
use pebble_bitmap_store_note.Query.Normalize.{
  is_hex_attribute, normalize, normalize_expression, normalize_or, normalize_equal_expr, cross,
  distribute,
}
use pebble_bitmap_store_note.Evaluate.Asked.{normalize-asks}
use pebble_bitmap_store_note.Evaluate.Asks.{asks, IsPlain}
use pebble_bitmap_store_note.Query.Normalize.Total.{TypedLeaf}
use pebble_bitmap_store_note.Encoding.Keys.{
  numeric_bitmap_key, numeric_bitmap_name_prefix, decode_numeric_bitmap_key,
}
use pebble_bitmap_store_note.Encoding.Ranges.{in_range, prefix_upper_bound}
use pebble_bitmap_store_note.Encoding.Slices.{slice, slice_from}
use pebble_bitmap_store_note.Encoding.Integers.{put_uint16, put_uint64, uint16, uint64}
use pebble_bitmap_store_note.Index.Bitmaps.{get_numeric_bitmap}
use pebble_bitmap_store_note.Index.Values.{
  collect, scan_distinct_numeric_values, matching_numeric_values_greater_or_equal_than,
}
use pebble_bitmap_store_note.Evaluate.{
  evaluate_term, evaluate_expr, evaluate_ast, evaluate_greater_or_equal_than, or_loop, evaluate_and,
  and_loop, join, reconstruct_numeric_bitmaps_or,
}
use pebble_bitmap_store_note.Evaluate.Satisfies.{satisfies}
use pebble_bitmap_store_note.Index.Layouts.{IsName}
use pebble_bitmap_store_note.Evaluate.Select.{evaluate_term-selects, evaluate_ast-selects}
use pebble_bitmap_store_note.Evaluate.Total.Scans.{Serves}

abbrev same : Bytes → Bytes
same s = s

abbrev no_glob : Bytes → Bytes → Bool
no_glob glob_pattern v = bytes_eq glob_pattern v

abbrev unsorted : List ℕ → List ℕ
unsorted ids = ids

-- a >= 1
abbrev at_least_one : AstTerm
at_least_one = AstTerm.greater_or_equal_than (record { var = a_name; value = number 1 })

-- !(a < 1)
abbrev not_below_one : Expression
not_below_one = expression (
    or_expression
      (and_expression
        (paren true (
          expression (
            or_expression
              (and_expression (EqualExpr.less_than (record { var = a_name; value = number 1 }))
                and_end)
              or_end)))
        and_end)
      or_end)

normalize-not_below_one :
    normalize same (filtered not_below_one) ≡ ok (some ((at_least_one ∷ []) ∷ []))
unfolding normalize normalize_expression normalize_or normalize_equal_expr depth invert_expression
    invert_and invert_equal_expr is_hex_attribute cross distribute
normalize-not_below_one = refl

evaluate-at_least_one :
    evaluate_term table_db list_bitmaps no_glob sample_db at_least_one ≡ ok (7 ∷ [])
unfolding evaluate_term evaluate_greater_or_equal_than matching_numeric_values_greater_or_equal_than
    scan_distinct_numeric_values collect numeric_bitmap_name_prefix numeric_bitmap_key
    decode_numeric_bitmap_key in_range prefix_upper_bound slice slice_from put_uint16 put_uint64
    uint16 uint64 reconstruct_numeric_bitmaps_or get_numeric_bitmap lookup inside visible bytes_lt
    bytes_eq
evaluate-at_least_one = refl

-- The attribute name can be read.
a-IsName : IsName a_name
a-IsName = record { short = omega arith; utf8 = omega arith }

sample-Serves : Serves table_db list_bitmaps sample_db
sample-Serves = record {
  gets = λ k. (lookup sample_db k, refl);
  scans = λ lower upper. (inside (in_range lower upper) (visible sample_db), refl);
  string_bitmaps = λ n v s h. (s, refl);
  numeric_bitmaps = λ n v s h. (s, refl);
}

evaluate_term-selects_example :
    (b : List ℕ) × (evaluate_term table_db list_bitmaps no_glob sample_db at_least_one ≡ ok b)
    × ((i : ℕ) → list_bitmaps.contains b i ≡ satisfies no_glob sample_attributes i at_least_one)
evaluate_term-selects_example =
    evaluate_term-selects table_db list_bitmaps same no_glob unsorted sample_db sample_attributes
      sample-Indexes sample-Serves at_least_one a-IsName

evaluate-one_conjunction :
    evaluate_expr table_db list_bitmaps no_glob sample_db ((at_least_one ∷ []) ∷ [])
    ≡ ok (some (7 ∷ []))
unfolding evaluate_expr or_loop evaluate_and and_loop join
evaluate-one_conjunction = rw evaluate-at_least_one

not_below_one-IsPlain : IsPlain true not_below_one
unfolding IsPlain
not_below_one-IsPlain = ((((tt, tt), tt), tt), tt)

not_below_one-typed : Leaves TypedLeaf not_below_one
unfolding Leaves is_hex_attribute
not_below_one-typed = ((((refl, tt), tt), tt), tt)

evaluate-whole :
    evaluate_ast table_db list_bitmaps no_glob unsorted sample_db (some ((at_least_one ∷ []) ∷ []))
    ≡ ok (some (7 ∷ []))
unfolding evaluate_ast
evaluate-whole = evaluate-one_conjunction

normalize-asks_example :
    ast_holds (satisfies no_glob sample_attributes 7) (some ((at_least_one ∷ []) ∷ []))
    ≡ asks same no_glob sample_attributes 7 true not_below_one
normalize-asks_example =
    normalize-asks same no_glob sample_attributes 7 not_below_one (some ((at_least_one ∷ []) ∷ []))
      not_below_one-typed not_below_one-IsPlain normalize-not_below_one

-- The entity is found.
not_below_one-asked : asks same no_glob sample_attributes 7 true not_below_one ≡ true
unfolding asks bytes_eq
not_below_one-asked = refl

evaluate_ast-selects_example :
    (b : List ℕ) × (evaluate_ast table_db list_bitmaps no_glob unsorted sample_db
        (some ((at_least_one ∷ []) ∷ []))
      ≡ ok (some b))
    × ((i : ℕ)
        → list_bitmaps.contains b i ≡ asks same no_glob sample_attributes i true not_below_one)
evaluate_ast-selects_example =
    evaluate_ast-selects table_db list_bitmaps same no_glob unsorted sample_db sample_attributes
      sample-Indexes sample-Serves not_below_one ((at_least_one ∷ []) ∷ []) not_below_one-typed
      not_below_one-IsPlain normalize-not_below_one ((a-IsName, tt), tt)
