-- ===== src/Query/Normalize/Parse.antt =====
-- `TopLevel.Normalize` as a whole: what `Parse` makes of a syntax tree.
use pebble_bitmap_store_note.Prelude.{
  ◌≡◌, sym, ◌∙◌, Bool, true, some, Bytes, ok, >>=-eq-ok, ok-injective, arith,
}
use pebble_bitmap_store_note.Query.Language.{Expression, TopLevel, everything, filtered}
use pebble_bitmap_store_note.Query.Ast.{AstTerm, AstOr, Ast, ast_holds}
use pebble_bitmap_store_note.Query.Depth.{depth}
use pebble_bitmap_store_note.Query.Meaning.{Leaves, Complements, means, query_reads, reads-eq-means}
use pebble_bitmap_store_note.Query.Normalize.{normalize, normalize_expression}
use pebble_bitmap_store_note.Query.Normalize.Correct.{leaf_value, holds-normalize_expression}
use pebble_bitmap_store_note.Query.Normalize.Total.{
  TypedLeaf, IsDnf, Ends, Ends-bind, expression-Succeeds, expression-Ends,
}

module _ (to_lower : Bytes → Bytes) where
  -- Where normalisation succeeds, the normal form holds for a valuation of the terms exactly when
  -- the query does, read off its tree with each negation carried to the leaves: a leaf under an
  -- odd number of negations counts as its inverted leaf. Nothing is assumed of the valuation.
  pub normalize-reads :
      (v : AstTerm → Bool) (q : TopLevel) (a : Ast)
      → normalize to_lower q ≡ ok a
      → ast_holds v a ≡ query_reads (leaf_value to_lower v) q
  unfolding normalize
  normalize-reads v everything a h = rw (sym (ok-injective h))
  normalize-reads v (filtered e) a h =
      let (o, p, h') = >>=-eq-ok (normalize_expression to_lower (depth true e) e) _ h in
      rw (sym (ok-injective h')) (holds-normalize_expression to_lower v (depth true e) e o p)

  -- A query whose comparisons with `$key`, `$owner` and `$creator` all have a string literal is
  -- normalised, with no panic and with enough fuel, to a disjunction that has a conjunction, each
  -- of which has a term.
  pub normalize-total :
      (e : Expression)
      → Leaves TypedLeaf e
      → (o : AstOr) × (normalize to_lower (filtered e) ≡ ok (some o)) × IsDnf o
  unfolding normalize
  normalize-total e h =
      let (o, p, dnf) = expression-Succeeds to_lower (depth true e) e (omega arith) h in
      (o, rw p, dnf)

  -- If moreover inverting a leaf of the query negates its value, the normal form holds exactly
  -- when the query does as a Boolean formula.
  pub normalize-means :
      (v : AstTerm → Bool) (e : Expression)
      → Leaves TypedLeaf e
      → Leaves (Complements (leaf_value to_lower v)) e
      → (a : Ast) × (normalize to_lower (filtered e) ≡ ok a)
        × (ast_holds v a ≡ means (leaf_value to_lower v) e)
  normalize-means v e h c =
      let (o, p, dnf) = normalize-total e h in
      (
        some o,
        p,
        normalize-reads v (filtered e) (some o) p ∙ reads-eq-means (leaf_value to_lower v) e c,
      )

  -- Normalisation never runs out of its fuel, on no query.
  pub normalize-Ends : (q : TopLevel) → Ends (normalize to_lower q)
  unfolding normalize
  normalize-Ends everything = λ h. cc
  normalize-Ends (filtered e) =
      Ends-bind (normalize_expression to_lower (depth true e) e) (λ o. ok (some o))
        (expression-Ends to_lower (depth true e) e (omega arith)) (λ o h. cc)
