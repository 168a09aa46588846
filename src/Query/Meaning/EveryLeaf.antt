-- ===== src/Query/Meaning/EveryLeaf.antt =====
-- A predicate of every leaf of a query.
use pebble_bitmap_store_note.Query.Language.{
  Expression, expression, OrExpression, or_expression, OrRhs, or_end, or_rhs, AndExpression,
  and_expression, AndRhs, and_end, and_rhs, EqualExpr, paren,
}

unfoldable mutual
  pub Leaves : (EqualExpr → Type 0) → Expression → Type 0
  Leaves P (expression o) = LeavesOr P o

  pub LeavesOr : (EqualExpr → Type 0) → OrExpression → Type 0
  LeavesOr P (or_expression left right) = LeavesAnd P left × LeavesOrRhs P right

  pub LeavesOrRhs : (EqualExpr → Type 0) → OrRhs → Type 0
  LeavesOrRhs P or_end = Unit
  LeavesOrRhs P (or_rhs e rest) = LeavesAnd P e × LeavesOrRhs P rest

  pub LeavesAnd : (EqualExpr → Type 0) → AndExpression → Type 0
  LeavesAnd P (and_expression left right) = LeavesEqual P left × LeavesAndRhs P right

  pub LeavesAndRhs : (EqualExpr → Type 0) → AndRhs → Type 0
  LeavesAndRhs P and_end = Unit
  LeavesAndRhs P (and_rhs e rest) = LeavesEqual P e × LeavesAndRhs P rest

  pub LeavesEqual : (EqualExpr → Type 0) → EqualExpr → Type 0
  LeavesEqual P (paren is_not nested) = Leaves P nested
  LeavesEqual P e = P e
