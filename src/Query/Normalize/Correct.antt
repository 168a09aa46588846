-- ===== src/Query/Normalize/Correct.antt =====
-- The meaning of the normal form, method by method.
use pebble_bitmap_store_note.Prelude.{
  ℕ, zero, suc, ◌≡◌, sym, ap₂, ◌∙◌, Bool, true, false, ◌&&◌, ◌||◌, [], ◌∷◌, List, arith, all,
  any-append, Bytes, Result, ok, err, ◌>>=◌, >>=-eq-ok, ok-injective,
}
use pebble_bitmap_store_note.Query.Language.{
  Expression, expression, OrExpression, or_expression, OrRhs, or_end, or_rhs, AndExpression,
  and_expression, AndRhs, and_end, and_rhs, EqualExpr, paren,
}
use pebble_bitmap_store_note.Query.Invert.{invert_expression}
use pebble_bitmap_store_note.Query.Ast.{AstTerm, AstAnd, AstOr, holds}
use pebble_bitmap_store_note.Query.Meaning.{
  reads, reads_or, reads_or_rhs, reads_and, reads_and_rhs, reads_equal, reads-invert,
}
use pebble_bitmap_store_note.Query.Normalize.{
  normalize_equal_expr, normalize_paren, convert_to_terms, convert_and_rhs, normalize_and,
  normalize_or_rhs, normalize_or, normalize_expression,
}
use pebble_bitmap_store_note.Query.Normalize.Cross.{holds-cross}

-- The value of a leaf is the value of the term that it normalises to.
abbrev pub leaf_value : (Bytes → Bytes) → (AstTerm → Bool) → EqualExpr → Bool
leaf_value to_lower v e = elim (normalize_equal_expr to_lower e) [ ok t ↦ v t | err _ ↦ false ]

module _ (to_lower : Bytes → Bytes) (v : AstTerm → Bool) where
  -- The claim about one recursive call.
  abbrev Agrees : (Expression → Result AstOr) → Type 0
  Agrees f =
      (e : Expression) (o : AstOr) → f e ≡ ok o → holds v o ≡ reads (leaf_value to_lower v) true e

  holds-leaf :
      (r : Result AstTerm) (d : List AstAnd)
      → (r >>= λ t. ok ((t ∷ []) ∷ [])) ≡ ok d
      → holds v d ≡ elim r [ ok t ↦ v t | err _ ↦ false ]
  holds-leaf (ok t) d h = rw (sym (ok-injective h)) (ground arith)
  holds-leaf (err x) d h = cc

  module _ (f : Expression → Result AstOr) (f-agrees : Agrees f) where
    holds-convert :
        (e : EqualExpr) (d : List AstAnd)
        → convert_to_terms to_lower f e ≡ ok d
        → holds v d ≡ reads_equal (leaf_value to_lower v) true e
    unfolding convert_to_terms normalize_paren reads
    holds-convert (paren false nested) d h = f-agrees nested d h
    holds-convert (paren true nested) d h =
        let (e', inverted, h') = >>=-eq-ok (invert_expression nested) f h in
        f-agrees e' d h' ∙ reads-invert (leaf_value to_lower v) nested e' inverted
    holds-convert e d h = holds-leaf (normalize_equal_expr to_lower e) d h

    holds-convert_rhs :
        (es : AndRhs) (ds : List (List AstAnd))
        → convert_and_rhs to_lower f es ≡ ok ds
        → all (holds v) ds ≡ reads_and_rhs (leaf_value to_lower v) true es
    unfolding convert_and_rhs reads_and_rhs
    holds-convert_rhs and_end ds h = rw (sym (ok-injective h))
    holds-convert_rhs (and_rhs e rest) ds h =
        let (d, p, h') = >>=-eq-ok (convert_to_terms to_lower f e) _ h in
        let (others, q, h'') = >>=-eq-ok (convert_and_rhs to_lower f rest) _ h' in
        rw (sym (ok-injective h''))
          (ap₂ ◌&&◌ (holds-convert e d p) (holds-convert_rhs rest others q))

    holds-and :
        (e : AndExpression) (o : AstOr)
        → normalize_and to_lower f e ≡ ok o
        → holds v o ≡ reads_and (leaf_value to_lower v) true e
    unfolding normalize_and reads_and
    holds-and (and_expression left right) o h =
        let (d, p, h') = >>=-eq-ok (convert_to_terms to_lower f left) _ h in
        let (others, q, h'') = >>=-eq-ok (convert_and_rhs to_lower f right) _ h' in
        rw (sym (ok-injective h''), holds-cross)
          (ap₂ ◌&&◌ (holds-convert left d p) (holds-convert_rhs right others q))

    holds-or_rhs :
        (es : OrRhs) (o : AstOr)
        → normalize_or_rhs to_lower f es ≡ ok o
        → holds v o ≡ reads_or_rhs (leaf_value to_lower v) true es
    unfolding normalize_or_rhs reads_or_rhs
    holds-or_rhs or_end o h = rw (sym (ok-injective h))
    holds-or_rhs (or_rhs e rest) o h =
        let (c, p, h') = >>=-eq-ok (normalize_and to_lower f e) _ h in
        let (others, q, h'') = >>=-eq-ok (normalize_or_rhs to_lower f rest) _ h' in
        rw (sym (ok-injective h''), any-append)
          (ap₂ ◌||◌ (holds-and e c p) (holds-or_rhs rest others q))

    holds-or :
        (e : OrExpression) (o : AstOr)
        → normalize_or to_lower f e ≡ ok o
        → holds v o ≡ reads_or (leaf_value to_lower v) true e
    unfolding normalize_or reads_or
    holds-or (or_expression left right) o h =
        let (c, p, h') = >>=-eq-ok (normalize_and to_lower f left) _ h in
        let (others, q, h'') = >>=-eq-ok (normalize_or_rhs to_lower f right) _ h' in
        rw (sym (ok-injective h''), any-append)
          (ap₂ ◌||◌ (holds-and left c p) (holds-or_rhs right others q))

  pub holds-normalize_expression : (fuel : ℕ) → Agrees (normalize_expression to_lower fuel)
  unfolding normalize_expression reads
  holds-normalize_expression zero e o h = cc
  holds-normalize_expression (suc fuel) (expression e) o h =
      holds-or (normalize_expression to_lower fuel) (holds-normalize_expression fuel) e o h
