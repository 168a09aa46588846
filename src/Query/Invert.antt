-- ===== src/Query/Invert.antt =====
-- query/normalize.go: the `invert` methods, which push one negation down by one level.
use pebble_bitmap_store_note.Prelude.{false, not, Result, ok, err, panic}
use pebble_bitmap_store_note.Query.Language.{
  Glob, LessThan, LessOrEqualThan, GreaterThan, GreaterOrEqualThan, Equality, Inclusion, Expression,
  expression, OrExpression, or_expression, OrRhs, or_end, or_rhs, AndExpression, and_expression,
  AndRhs, and_end, and_rhs, EqualExpr, paren, assign, inclusion, less_than, less_or_equal_than,
  greater_than, greater_or_equal_than, glob,
}

unfoldable pub invert_glob : Glob → Glob
invert_glob e = record { var = e.var; is_not = not e.is_not; value = e.value }

unfoldable pub invert_less_than : LessThan → GreaterOrEqualThan
invert_less_than e = record { var = e.var; value = e.value }

unfoldable pub invert_less_or_equal_than : LessOrEqualThan → GreaterThan
invert_less_or_equal_than e = record { var = e.var; value = e.value }

unfoldable pub invert_greater_than : GreaterThan → LessOrEqualThan
invert_greater_than e = record { var = e.var; value = e.value }

unfoldable pub invert_greater_or_equal_than : GreaterOrEqualThan → LessThan
invert_greater_or_equal_than e = record { var = e.var; value = e.value }

unfoldable pub invert_equality : Equality → Equality
invert_equality e = record { var = e.var; is_not = not e.is_not; value = e.value }

unfoldable pub invert_inclusion : Inclusion → Inclusion
invert_inclusion e = record { var = e.var; is_not = not e.is_not; values = e.values }

-- `EqualExpr.invert`, and in its first clause `Paren.invert`
unfoldable pub invert_equal_expr : EqualExpr → EqualExpr
unfolding invert_glob invert_less_than invert_less_or_equal_than invert_greater_than
    invert_greater_or_equal_than invert_equality invert_inclusion
invert_equal_expr (paren is_not nested) = paren (not is_not) nested
invert_equal_expr (less_than e) = greater_or_equal_than (invert_less_than e)
invert_equal_expr (less_or_equal_than e) = greater_than (invert_less_or_equal_than e)
invert_equal_expr (greater_than e) = less_or_equal_than (invert_greater_than e)
invert_equal_expr (greater_or_equal_than e) = less_than (invert_greater_or_equal_than e)
invert_equal_expr (glob e) = glob (invert_glob e)
invert_equal_expr (assign e) = assign (invert_equality e)
invert_equal_expr (inclusion e) = inclusion (invert_inclusion e)

-- `AndRHS.invert` over the list
unfoldable pub invert_and_rhs : AndRhs → OrRhs
invert_and_rhs and_end = or_end
invert_and_rhs (and_rhs e rest) =
    or_rhs (and_expression (invert_equal_expr e) and_end) (invert_and_rhs rest)

unfoldable pub invert_and : AndExpression → OrExpression
unfolding invert_and_rhs
invert_and (and_expression left right) =
    or_expression (and_expression (invert_equal_expr left) and_end) (invert_and_rhs right)

-- `OrRHS.invert` over the list
unfoldable pub invert_or_rhs : OrRhs → AndRhs
invert_or_rhs or_end = and_end
invert_or_rhs (or_rhs e rest) =
    and_rhs (paren false (expression (invert_and e))) (invert_or_rhs rest)

unfoldable pub invert_or : OrExpression → AndExpression
unfolding invert_or_rhs
invert_or (or_expression left right) =
    and_expression (paren false (expression (invert_and left))) (invert_or_rhs right)

-- the test on `newLeft` in `Expression.invert`
unfoldable pub unwrap_single : AndExpression → Result Expression
unwrap_single (and_expression (paren is_not nested) and_end) = ok nested
unwrap_single (and_expression left and_end) = err panic
unwrap_single (and_expression left (and_rhs e rest)) =
    ok (expression (or_expression (and_expression left (and_rhs e rest)) or_end))

unfoldable pub invert_expression : Expression → Result Expression
unfolding invert_or unwrap_single
invert_expression (expression o) = unwrap_single (invert_or o)
