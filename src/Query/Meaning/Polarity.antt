-- ===== src/Query/Meaning/Polarity.antt =====
-- The reading of a query under a number of negations, of which only the parity counts. Under an
-- odd number a leaf stands for its inverted leaf, and `&&` and `||` change places. No law that
-- ties a leaf to its inverted leaf is supposed: an entity without an attribute satisfies neither
-- `a = 1` nor `a != 1`.
use pebble_bitmap_store_note.Prelude.{Bool, not, ◌&&◌, ◌||◌, if◌then◌else◌}
use pebble_bitmap_store_note.Query.Language.{
  Expression, expression, OrExpression, or_expression, OrRhs, or_end, or_rhs, AndExpression,
  and_expression, AndRhs, and_end, and_rhs, EqualExpr, paren,
}
use pebble_bitmap_store_note.Query.Invert.{invert_equal_expr}

-- `true` is the reading under an even number of negations.
unfoldable mutual
  pub reads : (EqualExpr → Bool) → Bool → Expression → Bool
  reads u b (expression o) = reads_or u b o

  pub reads_or : (EqualExpr → Bool) → Bool → OrExpression → Bool
  reads_or u b (or_expression left right) =
      if b
      then reads_and u b left || reads_or_rhs u b right
      else reads_and u b left && reads_or_rhs u b right

  pub reads_or_rhs : (EqualExpr → Bool) → Bool → OrRhs → Bool
  reads_or_rhs u b or_end = not b
  reads_or_rhs u b (or_rhs e rest) =
      if b
      then reads_and u b e || reads_or_rhs u b rest
      else reads_and u b e && reads_or_rhs u b rest

  pub reads_and : (EqualExpr → Bool) → Bool → AndExpression → Bool
  reads_and u b (and_expression left right) =
      if b
      then reads_equal u b left && reads_and_rhs u b right
      else reads_equal u b left || reads_and_rhs u b right

  pub reads_and_rhs : (EqualExpr → Bool) → Bool → AndRhs → Bool
  reads_and_rhs u b and_end = b
  reads_and_rhs u b (and_rhs e rest) =
      if b
      then reads_equal u b e && reads_and_rhs u b rest
      else reads_equal u b e || reads_and_rhs u b rest

  pub reads_equal : (EqualExpr → Bool) → Bool → EqualExpr → Bool
  reads_equal u b (paren is_not nested) = reads u (if is_not then not b else b) nested
  reads_equal u b e = if b then u e else u (invert_equal_expr e)
