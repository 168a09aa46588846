-- ===== src/Query/Normalize/Total.antt =====
-- The results of the methods on well-typed queries.
mod Inverted
mod Product
mod Fuel
unfoldable pub use Product.{IsDnf, IsNonempty}
pub use Fuel.{Ends, Ends-bind, expression-Ends}
use pebble_bitmap_store_note.Prelude.{
  ℕ, zero, suc, ◌≤◌, ◌≡◌, refl, ap, true, false, [], ◌∷◌, ◌++◌, arith, Bytes, Result, ok, ◌>>=◌,
  All, if◌then◌else◌,
}
use pebble_bitmap_store_note.Query.Language.{
  Value, string, number, Expression, expression, OrExpression, or_expression, OrRhs, or_end, or_rhs,
  AndExpression, and_expression, AndRhs, and_end, and_rhs, EqualExpr, paren, assign, inclusion,
  less_than, less_or_equal_than, greater_than, greater_or_equal_than, glob,
}
use pebble_bitmap_store_note.Query.Invert.{invert_equal_expr}
use pebble_bitmap_store_note.Query.Ast.{AstTerm, AstOr}
use pebble_bitmap_store_note.Query.Depth.{
  depth, depth_or, depth_or_rhs, depth_and, depth_and_rhs, depth_equal,
}
use pebble_bitmap_store_note.Query.Meaning.{
  Leaves, LeavesOr, LeavesOrRhs, LeavesAnd, LeavesAndRhs, LeavesEqual,
}
use pebble_bitmap_store_note.Query.Normalize.{
  is_hex_attribute, lower_value, normalize_equal_expr, cross, normalize_paren, convert_to_terms,
  convert_and_rhs, normalize_and, normalize_or_rhs, normalize_or, normalize_expression,
}
use Inverted.{invert_expression-Succeeds}
use Product.{IsDnf-append, product-IsDnf}

-- A literal that may stand beside the attribute: `$key`, `$owner` and `$creator` want a string.
abbrev pub TypedValue : Bytes → Value → Type 0
TypedValue var (string s) = Unit
TypedValue var (number n) = is_hex_attribute var ≡ false

abbrev pub TypedLeaf : EqualExpr → Type 0
TypedLeaf (assign e) = TypedValue e.var e.value
TypedLeaf (less_than e) = TypedValue e.var e.value
TypedLeaf (less_or_equal_than e) = TypedValue e.var e.value
TypedLeaf (greater_than e) = TypedValue e.var e.value
TypedLeaf (greater_or_equal_than e) = TypedValue e.var e.value
TypedLeaf (paren is_not nested) = ⊥
TypedLeaf (inclusion e) = Unit
TypedLeaf (glob e) = Unit

TypedLeaf-invert : (e : EqualExpr) → TypedLeaf e → TypedLeaf (invert_equal_expr e)
unfolding invert_equal_expr
TypedLeaf-invert (paren is_not nested) h = h
TypedLeaf-invert (assign e) h = h
TypedLeaf-invert _ h = h

-- `r` is a value that has `P`.
abbrev pub Succeeds {ℓ} : {A : Type ℓ} → (A → Type 0) → Result A → Type ℓ
Succeeds {A} P r = (a : A) × (r ≡ ok a) × P a

module _ (to_lower : Bytes → Bytes) where
  -- The literal that normalisation leaves beside `var`.
  abbrev pub lowered : Bytes → Value → Value
  lowered var (string s) = if is_hex_attribute var then string (to_lower s) else string s
  lowered var (number n) = number n

  pub lower_typed {ℓ} :
      {B : Type ℓ} (f : Value → B) (var : Bytes) (v : Value)
      → TypedValue var v
      → (if is_hex_attribute var then (lower_value to_lower v >>= λ val. ok (f val)) else ok (f v))
        ≡ ok (f (lowered var v))
  unfolding lower_value
  lower_typed f var (string s) h = ground arith
  lower_typed f var (number n) h = rw h

  leaf-Succeeds :
      (e : EqualExpr) → TypedLeaf e → Succeeds (λ _. Unit {0}) (normalize_equal_expr to_lower e)
  unfolding normalize_equal_expr
  leaf-Succeeds (paren is_not nested) h = absurd h
  leaf-Succeeds (assign e) h = (
    _,
    ap (λ r. r >>= λ n. ok (AstTerm.assign n))
        (lower_typed (λ val. record { var = e.var; is_not = e.is_not; value = val }) e.var e.value
          h),
    tt,
  )
  leaf-Succeeds (less_than e) h = (
    _,
    ap (λ r. r >>= λ n. ok (AstTerm.less_than n))
        (lower_typed (λ val. record { var = e.var; value = val }) e.var e.value h),
    tt,
  )
  leaf-Succeeds (less_or_equal_than e) h = (
    _,
    ap (λ r. r >>= λ n. ok (AstTerm.less_or_equal_than n))
        (lower_typed (λ val. record { var = e.var; value = val }) e.var e.value h),
    tt,
  )
  leaf-Succeeds (greater_than e) h = (
    _,
    ap (λ r. r >>= λ n. ok (AstTerm.greater_than n))
        (lower_typed (λ val. record { var = e.var; value = val }) e.var e.value h),
    tt,
  )
  leaf-Succeeds (greater_or_equal_than e) h = (
    _,
    ap (λ r. r >>= λ n. ok (AstTerm.greater_or_equal_than n))
        (lower_typed (λ val. record { var = e.var; value = val }) e.var e.value h),
    tt,
  )
  leaf-Succeeds (inclusion e) h = (_, refl, tt)
  leaf-Succeeds (glob e) h = (_, refl, tt)

  -- The claim about one recursive call: it succeeds on every typed query of at most this depth.
  abbrev SucceedsTo : ℕ → (Expression → Result AstOr) → Type 0
  SucceedsTo n f = (e : Expression) → depth true e ≤ n → Leaves TypedLeaf e → Succeeds IsDnf (f e)

  single :
      (r : Result AstTerm)
      → Succeeds (λ _. Unit {0}) r
      → Succeeds IsDnf (r >>= λ t. ok ((t ∷ []) ∷ []))
  single r (t, e, _) = ((t ∷ []) ∷ [], rw e, omega arith)

  module _ (n : ℕ) (f : Expression → Result AstOr) (f-Succeeds : SucceedsTo n f) where
    convert-Succeeds :
        (e : EqualExpr)
        → depth_equal true e ≤ n
        → LeavesEqual TypedLeaf e
        → Succeeds IsDnf (convert_to_terms to_lower f e)
    unfolding convert_to_terms normalize_paren depth Leaves
    convert-Succeeds (paren false nested) d h = f-Succeeds nested d h
    convert-Succeeds (paren true nested) d h =
        let (e', i) = invert_expression-Succeeds TypedLeaf TypedLeaf-invert nested in
        rw i.inverted (f-Succeeds e' (omega (arith, i.shallow)) (i.leaves h))
    convert-Succeeds e d h = single (normalize_equal_expr to_lower e) (leaf-Succeeds e h)

    convert_rhs-Succeeds :
        (es : AndRhs)
        → depth_and_rhs true es ≤ n
        → LeavesAndRhs TypedLeaf es
        → Succeeds (All IsDnf) (convert_and_rhs to_lower f es)
    unfolding convert_and_rhs depth_and_rhs LeavesAndRhs
    convert_rhs-Succeeds and_end d h = ([], refl, tt)
    convert_rhs-Succeeds (and_rhs e rest) d h =
        let (terms, p, dnf) = convert-Succeeds e (omega arith) h.0 in
        let (others, q, dnfs) = convert_rhs-Succeeds rest (omega arith) h.1 in
        (terms ∷ others, rw (p, q), (dnf, dnfs))

    and-Succeeds :
        (e : AndExpression)
        → depth_and true e ≤ n
        → LeavesAnd TypedLeaf e
        → Succeeds IsDnf (normalize_and to_lower f e)
    unfolding normalize_and depth_and LeavesAnd
    and-Succeeds (and_expression left right) d h =
        let (terms, p, dnf) = convert-Succeeds left (omega arith) h.0 in
        let (others, q, dnfs) = convert_rhs-Succeeds right (omega arith) h.1 in
        (cross ([] ∷ []) (terms ∷ others), rw (p, q), product-IsDnf terms others dnf dnfs)

    or_rhs-Succeeds :
        (es : OrRhs)
        → depth_or_rhs true es ≤ n
        → LeavesOrRhs TypedLeaf es
        → Succeeds (All IsNonempty) (normalize_or_rhs to_lower f es)
    unfolding normalize_or_rhs depth_or_rhs LeavesOrRhs
    or_rhs-Succeeds or_end d h = ([], refl, tt)
    or_rhs-Succeeds (or_rhs e rest) d h =
        let (terms, p, dnf) = and-Succeeds e (omega arith) h.0 in
        let (others, q, nonempty) = or_rhs-Succeeds rest (omega arith) h.1 in
        (terms ++ others, rw (p, q), (IsDnf-append terms others dnf nonempty).1)

    or-Succeeds :
        (e : OrExpression)
        → depth_or true e ≤ n
        → LeavesOr TypedLeaf e
        → Succeeds IsDnf (normalize_or to_lower f e)
    unfolding normalize_or depth_or LeavesOr
    or-Succeeds (or_expression left right) d h =
        let (terms, p, dnf) = and-Succeeds left (omega arith) h.0 in
        let (others, q, nonempty) = or_rhs-Succeeds right (omega arith) h.1 in
        (terms ++ others, rw (p, q), IsDnf-append terms others dnf nonempty)

  pub expression-Succeeds : (fuel : ℕ) → SucceedsTo fuel (normalize_expression to_lower fuel)
  unfolding normalize_expression depth Leaves
  expression-Succeeds zero (expression e) d h = absurd (omega arith)
  expression-Succeeds (suc fuel) (expression e) d h =
      or-Succeeds fuel (normalize_expression to_lower fuel) (expression-Succeeds fuel) e
        (omega arith) h
