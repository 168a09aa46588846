-- ===== src/Query/Normalize/Total/Inverted.antt =====
-- Inverting a query: its result, its depth and its leaves.
use pebble_bitmap_store_note.Prelude.{◌≡◌, refl, ◌≤◌, true, false, arith, ok, suc}
use pebble_bitmap_store_note.Query.Language.{
  Expression, expression, or_expression, OrRhs, or_end, or_rhs, AndExpression, and_expression,
  AndRhs, and_end, and_rhs, EqualExpr, paren,
}
use pebble_bitmap_store_note.Query.Invert.{
  invert_equal_expr, invert_and_rhs, invert_and, invert_or_rhs, invert_or, invert_expression,
}
use pebble_bitmap_store_note.Query.Depth.{
  depth, depth_or, depth_or_rhs, depth_and, depth_and_rhs, depth_equal,
}
use pebble_bitmap_store_note.Query.Meaning.{
  Leaves, LeavesOr, LeavesOrRhs, LeavesAnd, LeavesAndRhs, LeavesEqual,
}

depth_equal-invert : (e : EqualExpr) → depth_equal true (invert_equal_expr e) ≡ depth_equal false e
unfolding depth invert_equal_expr
depth_equal-invert (paren true nested) = refl
depth_equal-invert (paren false nested) = refl
depth_equal-invert _ = refl

depth_or_rhs-invert : (es : AndRhs) → depth_or_rhs true (invert_and_rhs es) ≡ depth_and_rhs false es
unfolding depth invert_and_rhs
depth_or_rhs-invert and_end = refl
depth_or_rhs-invert (and_rhs e rest) = omega (arith, depth_equal-invert e, depth_or_rhs-invert rest)

depth_or-invert : (e : AndExpression) → depth_or true (invert_and e) ≡ depth_and false e
unfolding depth invert_and
depth_or-invert (and_expression left right) =
    omega (arith, depth_equal-invert left, depth_or_rhs-invert right)

depth_and_rhs-invert :
    (es : OrRhs) → depth_and_rhs true (invert_or_rhs es) ≤ suc (depth_or_rhs false es)
unfolding depth invert_or_rhs
depth_and_rhs-invert or_end = omega arith
depth_and_rhs-invert (or_rhs e rest) = omega (arith, depth_or-invert e, depth_and_rhs-invert rest)

module _ (P : EqualExpr → Type 0) (P-invert : (e : EqualExpr) → P e → P (invert_equal_expr e)) where
  LeavesEqual-invert : (e : EqualExpr) → LeavesEqual P e → LeavesEqual P (invert_equal_expr e)
  unfolding Leaves invert_equal_expr
  LeavesEqual-invert (paren is_not nested) h = h
  LeavesEqual-invert e h = P-invert e h

  LeavesOrRhs-invert : (es : AndRhs) → LeavesAndRhs P es → LeavesOrRhs P (invert_and_rhs es)
  unfolding Leaves invert_and_rhs
  LeavesOrRhs-invert and_end h = tt
  LeavesOrRhs-invert (and_rhs e rest) h =
      ((LeavesEqual-invert e h.0, tt), LeavesOrRhs-invert rest h.1)

  LeavesOr-invert : (e : AndExpression) → LeavesAnd P e → LeavesOr P (invert_and e)
  unfolding Leaves invert_and
  LeavesOr-invert (and_expression left right) h =
      ((LeavesEqual-invert left h.0, tt), LeavesOrRhs-invert right h.1)

  LeavesAndRhs-invert : (es : OrRhs) → LeavesOrRhs P es → LeavesAndRhs P (invert_or_rhs es)
  unfolding Leaves invert_or_rhs
  LeavesAndRhs-invert or_end h = tt
  LeavesAndRhs-invert (or_rhs e rest) h = (LeavesOr-invert e h.0, LeavesAndRhs-invert rest h.1)

  -- What an inverted query is, with its depth and its leaves.
  pub record IsInverse (e e' : Expression) : Type 0 where
    pub inverted : invert_expression e ≡ ok e'
    pub shallow : depth true e' ≤ depth false e
    pub leaves : Leaves P e → Leaves P e'

  pub invert_expression-Succeeds : (e : Expression) → (e' : Expression) × IsInverse e e'
  unfolding invert_expression depth Leaves
  invert_expression-Succeeds (expression (or_expression left or_end)) = (
    expression (invert_and left),
    record {
      inverted = refl;
      shallow = omega (arith, depth_or-invert left);
      leaves = λ h. LeavesOr-invert left h.0;
    },
  )
  invert_expression-Succeeds (expression (or_expression left (or_rhs e rest))) = (
    expression (or_expression (invert_or (or_expression left (or_rhs e rest))) or_end),
    record {
      inverted = refl;
      shallow = omega (arith, depth_or-invert left, depth_or-invert e, depth_and_rhs-invert rest);
      leaves = λ h. (
        (LeavesOr-invert left h.0, (LeavesOr-invert e h.1.0, LeavesAndRhs-invert rest h.1.1)),
        tt,
      );
    },
  )
