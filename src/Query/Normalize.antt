-- ===== src/Query/Normalize.antt =====
-- query/normalize.go: the `Normalize` methods. `to_lower` is Go's `strings.ToLower`.
-- `Paren.Normalize` goes on with an inverted tree, so the recursion takes fuel.
pub mod Cross
pub mod Correct
pub mod Total
pub mod Parse
pub mod Flaws
use mathlib.Core.List.{flat_map}
use pebble_bitmap_store_note.Prelude.{
  ℕ, zero, suc, Bool, true, false, ◌||◌, none, some, List, [], ◌∷◌, ◌++◌, map, Bytes, bytes_eq,
  Result, ok, err, panic, out_of_fuel, ◌>>=◌, if◌then◌else◌,
}
use pebble_bitmap_store_note.Query.Language.{
  key_attribute_key, creator_attribute_key, owner_attribute_key, Value, string, number, LessThan,
  LessOrEqualThan, GreaterThan, GreaterOrEqualThan, Equality, Inclusion, Expression, expression,
  OrExpression, or_expression, OrRhs, or_end, or_rhs, AndExpression, and_expression, AndRhs,
  and_end, and_rhs, EqualExpr, paren, assign, inclusion, less_than, less_or_equal_than,
  greater_than, greater_or_equal_than, glob, TopLevel, everything, filtered,
}
use pebble_bitmap_store_note.Query.Invert.{invert_expression}
use pebble_bitmap_store_note.Query.Ast.{AstTerm, AstAnd, AstOr, Ast}
use pebble_bitmap_store_note.Query.Depth.{depth}

-- the case `KeyAttributeKey, OwnerAttributeKey, CreatorAttributeKey` of each switch
unfoldable pub is_hex_attribute : Bytes → Bool
unfolding bytes_eq
is_hex_attribute var =
    bytes_eq var key_attribute_key
    || bytes_eq var owner_attribute_key
    || bytes_eq var creator_attribute_key

-- One step of the cross product: every conjunction so far with every one of `disjunctions`.
unfoldable pub distribute : List AstAnd → List AstAnd → List AstAnd
unfolding flat_map
distribute ast disjunctions =
    flat_map (λ conjunction. map (λ terms. conjunction ++ terms) disjunctions) ast

unfoldable pub cross : List AstAnd → List (List AstAnd) → List AstAnd
cross ast [] = ast
cross ast (disjunctions ∷ rest) = cross (distribute ast disjunctions) rest

module _ (to_lower : Bytes → Bytes) where
  -- `strings.ToLower(*e.Value.String)`, which panics on a nil pointer
  unfoldable pub lower_value : Value → Result Value
  lower_value (string s) = ok (string (to_lower s))
  lower_value (number n) = err panic

  unfoldable pub normalize_less_than : LessThan → Result LessThan
  unfolding lower_value
  normalize_less_than e =
      if is_hex_attribute e.var
      then (do val ← lower_value e.value; ok (record { var = e.var; value = val }))
      else ok e

  unfoldable pub normalize_less_or_equal_than : LessOrEqualThan → Result LessOrEqualThan
  unfolding lower_value
  normalize_less_or_equal_than e =
      if is_hex_attribute e.var
      then (do val ← lower_value e.value; ok (record { var = e.var; value = val }))
      else ok e

  unfoldable pub normalize_greater_than : GreaterThan → Result GreaterThan
  unfolding lower_value
  normalize_greater_than e =
      if is_hex_attribute e.var
      then (do val ← lower_value e.value; ok (record { var = e.var; value = val }))
      else ok e

  unfoldable pub normalize_greater_or_equal_than : GreaterOrEqualThan → Result GreaterOrEqualThan
  unfolding lower_value
  normalize_greater_or_equal_than e =
      if is_hex_attribute e.var
      then (do val ← lower_value e.value; ok (record { var = e.var; value = val }))
      else ok e

  unfoldable pub normalize_equality : Equality → Result Equality
  unfolding lower_value
  normalize_equality e =
      if is_hex_attribute e.var
      then (do
        val ← lower_value e.value
        ok (record { var = e.var; is_not = e.is_not; value = val }))
      else ok e

  -- The rebuilt struct does not set `IsNot`, which is then false.
  unfoldable pub normalize_inclusion : Inclusion → Inclusion
  normalize_inclusion e =
      if is_hex_attribute e.var
      then record {
        var = e.var;
        is_not = false;
        values = record { strings = map to_lower e.values.strings; numbers = [] };
      }
      else e

  -- `EqualExpr.Normalize`
  unfoldable pub normalize_equal_expr : EqualExpr → Result AstTerm
  unfolding normalize_less_than normalize_less_or_equal_than normalize_greater_than
      normalize_greater_or_equal_than normalize_equality normalize_inclusion
  normalize_equal_expr (paren is_not nested) = err panic
  normalize_equal_expr (less_than e) = do n ← normalize_less_than e; ok (AstTerm.less_than n)
  normalize_equal_expr (less_or_equal_than e) = do
    n ← normalize_less_or_equal_than e
    ok (AstTerm.less_or_equal_than n)
  normalize_equal_expr (greater_than e) = do
    n ← normalize_greater_than e
    ok (AstTerm.greater_than n)
  normalize_equal_expr (greater_or_equal_than e) = do
    n ← normalize_greater_or_equal_than e
    ok (AstTerm.greater_or_equal_than n)
  normalize_equal_expr (glob e) = ok (AstTerm.glob e)
  normalize_equal_expr (assign e) = do n ← normalize_equality e; ok (AstTerm.assign n)
  normalize_equal_expr (inclusion e) = ok (AstTerm.inclusion (normalize_inclusion e))

  -- The methods that recur, over `recur`, the method on a nested expression.
  module _ (recur : Expression → Result AstOr) where
    -- `Paren.Normalize`
    unfoldable pub normalize_paren : Bool → Expression → Result AstOr
    normalize_paren true nested = do e ← invert_expression nested; recur e
    normalize_paren false nested = recur nested

    unfoldable pub convert_to_terms : EqualExpr → Result (List AstAnd)
    unfolding normalize_paren
    convert_to_terms (paren is_not nested) = normalize_paren is_not nested
    convert_to_terms e = do t ← normalize_equal_expr e; ok ((t ∷ []) ∷ [])

    unfoldable pub convert_and_rhs : AndRhs → Result (List (List AstAnd))
    unfolding convert_to_terms
    convert_and_rhs and_end = ok []
    convert_and_rhs (and_rhs e rest) = do
      terms ← convert_to_terms e
      others ← convert_and_rhs rest
      ok (terms ∷ others)

    unfoldable pub normalize_and : AndExpression → Result (List AstAnd)
    unfolding convert_and_rhs
    normalize_and (and_expression left right) = do
      terms ← convert_to_terms left
      others ← convert_and_rhs right
      ok (cross ([] ∷ []) (terms ∷ others))

    unfoldable pub normalize_or_rhs : OrRhs → Result (List AstAnd)
    unfolding normalize_and
    normalize_or_rhs or_end = ok []
    normalize_or_rhs (or_rhs e rest) = do
      terms ← normalize_and e
      others ← normalize_or_rhs rest
      ok (terms ++ others)

    unfoldable pub normalize_or : OrExpression → Result AstOr
    unfolding normalize_or_rhs
    normalize_or (or_expression left right) = do
      terms ← normalize_and left
      others ← normalize_or_rhs right
      ok (terms ++ others)

  unfoldable pub normalize_expression : ℕ → Expression → Result AstOr
  normalize_expression zero e = err out_of_fuel
  normalize_expression (suc fuel) (expression o) = normalize_or (normalize_expression fuel) o

  -- `TopLevel.Normalize`, with fuel for the depth of the query.
  unfoldable pub normalize : TopLevel → Result Ast
  normalize everything = ok none
  normalize (filtered e) = do o ← normalize_expression (depth true e) e; ok (some o)
