-- ===== src/Query/Meaning/Inversion.antt =====
-- The reading of an inverted tree.
use pebble_bitmap_store_note.Prelude.{
  ◌≡◌, refl, sym, ap₂, ◌∙◌, Bool, true, false, ◌&&◌, arith, ok, ok-injective, or_false, and_true,
}
use pebble_bitmap_store_note.Query.Language.{
  Expression, expression, OrExpression, or_expression, OrRhs, or_end, or_rhs, AndExpression,
  and_expression, AndRhs, and_end, and_rhs, EqualExpr, paren,
}
use pebble_bitmap_store_note.Query.Invert.{
  invert_equal_expr, invert_and_rhs, invert_and, invert_or_rhs, invert_or, invert_expression,
}
use pebble_bitmap_store_note.Query.Meaning.Polarity.{
  reads, reads_or, reads_or_rhs, reads_and, reads_and_rhs, reads_equal,
}

module _ (u : EqualExpr → Bool) where
  reads_equal-invert :
      (e : EqualExpr) → reads_equal u true (invert_equal_expr e) ≡ reads_equal u false e
  unfolding reads_equal invert_equal_expr
  reads_equal-invert (paren true nested) = refl
  reads_equal-invert (paren false nested) = refl
  reads_equal-invert _ = refl

  reads_or_rhs-invert :
      (es : AndRhs) → reads_or_rhs u true (invert_and_rhs es) ≡ reads_and_rhs u false es
  unfolding reads invert_and_rhs
  reads_or_rhs-invert and_end = refl
  reads_or_rhs-invert (and_rhs e rest) =
      ground (arith, reads_equal-invert e, reads_or_rhs-invert rest)

  reads_or-invert : (e : AndExpression) → reads_or u true (invert_and e) ≡ reads_and u false e
  unfolding reads invert_and
  reads_or-invert (and_expression left right) =
      ground (arith, reads_equal-invert left, reads_or_rhs-invert right)

  reads_and_rhs-invert :
      (es : OrRhs) → reads_and_rhs u true (invert_or_rhs es) ≡ reads_or_rhs u false es
  unfolding reads invert_or_rhs
  reads_and_rhs-invert or_end = refl
  reads_and_rhs-invert (or_rhs e rest) =
      ground (arith, reads_or-invert e, reads_and_rhs-invert rest)

  reads_and-invert : (e : OrExpression) → reads_and u true (invert_or e) ≡ reads_or u false e
  unfolding reads invert_or
  reads_and-invert (or_expression left right) =
      ap₂ ◌&&◌ (reads_or-invert left) (reads_and_rhs-invert right)

  -- The inverted query is read as the query under one negation.
  pub reads-invert :
      (e e' : Expression) → invert_expression e ≡ ok e' → reads u true e' ≡ reads u false e
  unfolding reads invert_expression
  reads-invert (expression (or_expression left or_end)) e' h =
      rw (sym (ok-injective h)) (reads_or-invert left ∙ sym (and_true (reads_and u false left)))
  reads-invert (expression (or_expression left (or_rhs e rest))) e' h =
      rw (sym (ok-injective h)) (or_false _ ∙ reads_and-invert (or_expression left (or_rhs e rest)))
