-- ===== src/Query/Meaning/Classical.antt =====
-- The Boolean reading of a query: `&&`, `||` and `!` as such, for a value of each leaf.
use pebble_bitmap_store_note.Prelude.{Bool, true, false, not, ◌&&◌, ◌||◌, if◌then◌else◌}
use pebble_bitmap_store_note.Query.Language.{
  Expression, expression, OrExpression, or_expression, OrRhs, or_end, or_rhs, AndExpression,
  and_expression, AndRhs, and_end, and_rhs, EqualExpr, paren,
}

unfoldable mutual
  pub means : (EqualExpr → Bool) → Expression → Bool
  means u (expression o) = means_or u o

  pub means_or : (EqualExpr → Bool) → OrExpression → Bool
  means_or u (or_expression left right) = means_and u left || means_or_rhs u right

  pub means_or_rhs : (EqualExpr → Bool) → OrRhs → Bool
  means_or_rhs u or_end = false
  means_or_rhs u (or_rhs e rest) = means_and u e || means_or_rhs u rest

  pub means_and : (EqualExpr → Bool) → AndExpression → Bool
  means_and u (and_expression left right) = means_equal u left && means_and_rhs u right

  pub means_and_rhs : (EqualExpr → Bool) → AndRhs → Bool
  means_and_rhs u and_end = true
  means_and_rhs u (and_rhs e rest) = means_equal u e && means_and_rhs u rest

  pub means_equal : (EqualExpr → Bool) → EqualExpr → Bool
  means_equal u (paren is_not nested) = if is_not then not (means u nested) else means u nested
  means_equal u e = u e
