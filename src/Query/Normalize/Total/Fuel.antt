-- ===== src/Query/Normalize/Total/Fuel.antt =====
-- The fuel of the methods, on any query.
use pebble_bitmap_store_note.Prelude.{
  ℕ, zero, suc, ◌≤◌, ◌≢◌, true, false, [], ◌∷◌, arith, Bytes, Result, ok, err, out_of_fuel, ◌>>=◌,
  err-injective,
}
use pebble_bitmap_store_note.Query.Language.{
  Expression, expression, OrExpression, or_expression, OrRhs, or_end, or_rhs, AndExpression,
  and_expression, AndRhs, and_end, and_rhs, EqualExpr, paren, assign,
}
use pebble_bitmap_store_note.Query.Ast.{AstOr}
use pebble_bitmap_store_note.Query.Depth.{
  depth, depth_or, depth_or_rhs, depth_and, depth_and_rhs, depth_equal,
}
use pebble_bitmap_store_note.Query.Normalize.{
  lower_value, normalize_equal_expr, normalize_paren, convert_to_terms, convert_and_rhs,
  normalize_and, normalize_or_rhs, normalize_or, normalize_expression,
}
use pebble_bitmap_store_note.Query.Normalize.Total.Inverted.{invert_expression-Succeeds}

abbrev pub Ends {ℓ} : {A : Type ℓ} → Result A → Type ℓ
Ends r = r ≢ err out_of_fuel

pub Ends-bind {ℓ κ} :
    {A : Type ℓ} {B : Type κ} (m : Result A) (f : A → Result B)
    → Ends m
    → ((a : A) → Ends (f a))
    → Ends (m >>= f)
Ends-bind (ok a) f hm hf = hf a
Ends-bind (err x) f hm hf = λ h. hm (rw (err-injective h))

module _ (to_lower : Bytes → Bytes) where
  leaf-Ends : (e : EqualExpr) → Ends (normalize_equal_expr to_lower e)
  unfolding normalize_equal_expr lower_value
  leaf-Ends (assign e) = ground arith
  leaf-Ends _ = ground arith

  -- The claim about one recursive call.
  abbrev EndsTo : ℕ → (Expression → Result AstOr) → Type 0
  EndsTo n f = (e : Expression) → depth true e ≤ n → Ends (f e)

  module _ (n : ℕ) (f : Expression → Result AstOr) (f-ends : EndsTo n f) where
    convert-Ends : (e : EqualExpr) → depth_equal true e ≤ n → Ends (convert_to_terms to_lower f e)
    unfolding convert_to_terms normalize_paren depth
    convert-Ends (paren false nested) d = f-ends nested d
    convert-Ends (paren true nested) d =
        let (e', i) = invert_expression-Succeeds (λ _. Unit) (λ _ _. tt) nested in
        rw i.inverted (f-ends e' (omega (arith, i.shallow)))
    convert-Ends e d =
        Ends-bind (normalize_equal_expr to_lower e) (λ t. ok ((t ∷ []) ∷ [])) (leaf-Ends e)
          (λ t h. cc)

    convert_rhs-Ends :
        (es : AndRhs) → depth_and_rhs true es ≤ n → Ends (convert_and_rhs to_lower f es)
    unfolding convert_and_rhs depth_and_rhs
    convert_rhs-Ends and_end d = λ h. cc
    convert_rhs-Ends (and_rhs e rest) d =
        Ends-bind (convert_to_terms to_lower f e) _ (convert-Ends e (omega arith)) λ terms.
          Ends-bind (convert_and_rhs to_lower f rest) _ (convert_rhs-Ends rest (omega arith))
            λ others h. cc

    and-Ends : (e : AndExpression) → depth_and true e ≤ n → Ends (normalize_and to_lower f e)
    unfolding normalize_and depth_and
    and-Ends (and_expression left right) d =
        Ends-bind (convert_to_terms to_lower f left) _ (convert-Ends left (omega arith)) λ terms.
          Ends-bind (convert_and_rhs to_lower f right) _ (convert_rhs-Ends right (omega arith))
            λ others h. cc

    or_rhs-Ends : (es : OrRhs) → depth_or_rhs true es ≤ n → Ends (normalize_or_rhs to_lower f es)
    unfolding normalize_or_rhs depth_or_rhs
    or_rhs-Ends or_end d = λ h. cc
    or_rhs-Ends (or_rhs e rest) d =
        Ends-bind (normalize_and to_lower f e) _ (and-Ends e (omega arith)) λ terms.
          Ends-bind (normalize_or_rhs to_lower f rest) _ (or_rhs-Ends rest (omega arith))
            λ others h. cc

    or-Ends : (e : OrExpression) → depth_or true e ≤ n → Ends (normalize_or to_lower f e)
    unfolding normalize_or depth_or
    or-Ends (or_expression left right) d =
        Ends-bind (normalize_and to_lower f left) _ (and-Ends left (omega arith)) λ terms.
          Ends-bind (normalize_or_rhs to_lower f right) _ (or_rhs-Ends right (omega arith))
            λ others h. cc

  pub expression-Ends : (fuel : ℕ) → EndsTo fuel (normalize_expression to_lower fuel)
  unfolding normalize_expression depth
  expression-Ends zero (expression e) d = absurd (omega arith)
  expression-Ends (suc fuel) (expression e) d =
      or-Ends fuel (normalize_expression to_lower fuel) (expression-Ends fuel) e (omega arith)
