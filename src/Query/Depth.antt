-- ===== src/Query/Depth.antt =====
-- How deep `Paren.Normalize` recurs in a query: the fuel of its normalisation. The flag is
-- `false` for a part that will be inverted first; inverting adds a level of parentheses round
-- each operand of an `||`.
use Prim.Native.Nat.{max}
use pebble_bitmap_store_note.Prelude.{ℕ, suc, Bool, true, false, not, if◌then◌else◌}
use pebble_bitmap_store_note.Query.Language.{
  Expression, expression, OrExpression, or_expression, OrRhs, or_end, or_rhs, AndExpression,
  and_expression, AndRhs, and_end, and_rhs, EqualExpr, paren,
}

unfoldable mutual
  pub depth : Bool → Expression → ℕ
  depth b (expression o) = suc (depth_or b o)

  pub depth_or : Bool → OrExpression → ℕ
  depth_or true (or_expression left right) = max (depth_and true left) (depth_or_rhs true right)
  depth_or false (or_expression left right) =
      suc (max (depth_and false left) (depth_or_rhs false right))

  pub depth_or_rhs : Bool → OrRhs → ℕ
  depth_or_rhs b or_end = 0
  depth_or_rhs b (or_rhs e rest) = max (depth_and b e) (depth_or_rhs b rest)

  pub depth_and : Bool → AndExpression → ℕ
  depth_and b (and_expression left right) = max (depth_equal b left) (depth_and_rhs b right)

  pub depth_and_rhs : Bool → AndRhs → ℕ
  depth_and_rhs b and_end = 0
  depth_and_rhs b (and_rhs e rest) = max (depth_equal b e) (depth_and_rhs b rest)

  pub depth_equal : Bool → EqualExpr → ℕ
  depth_equal b (paren is_not nested) = depth (if is_not then not b else b) nested
  depth_equal b e = 0
