-- ===== src/Evaluate/Asked.antt =====
-- What a query asks, and its normal form.
mod SignedLeaf
use pebble_bitmap_store_note.Prelude.{ℕ, ◌≡◌, refl, ◌∙◌, Bool, true, not, Bytes, ok, if◌then◌else◌}
use pebble_bitmap_store_note.Query.Language.{
  Expression, expression, OrExpression, or_expression, OrRhs, or_end, or_rhs, AndExpression,
  and_expression, AndRhs, and_end, and_rhs, EqualExpr, paren, filtered,
}
use pebble_bitmap_store_note.Query.Ast.{Ast, ast_holds}
use pebble_bitmap_store_note.Query.Meaning.{
  Leaves, LeavesOr, LeavesOrRhs, LeavesAnd, LeavesAndRhs, LeavesEqual, reads, reads_or,
  reads_or_rhs, reads_and, reads_and_rhs, reads_equal,
}
use pebble_bitmap_store_note.Query.Normalize.{normalize}
use pebble_bitmap_store_note.Query.Normalize.Total.{TypedLeaf}
use pebble_bitmap_store_note.Query.Normalize.Parse.{normalize-reads}
use pebble_bitmap_store_note.Index.Attributes.{Attributes}
use pebble_bitmap_store_note.Evaluate.Satisfies.{satisfies}
use SignedLeaf.{value_of, leaf-asks}
use pebble_bitmap_store_note.Evaluate.Asks.{
  asks, asks_or, asks_or_rhs, asks_and, asks_and_rhs, asks_equal, IsPlain, IsPlainOr, IsPlainOrRhs,
  IsPlainAnd, IsPlainAndRhs, IsPlainEqual,
}

module _ (to_lower : Bytes → Bytes) (path_match : Bytes → Bytes → Bool) (a : Attributes)
    (i : ℕ) where
  mutual
    unfolding reads asks Leaves IsPlain

    reads-asks :
        (b : Bool) (e : Expression)
        → Leaves TypedLeaf e
        → IsPlain b e
        → reads (value_of to_lower path_match a i) b e ≡ asks to_lower path_match a i b e
    reads-asks b (expression o) h k = reads_or-asks b o h k

    reads_or-asks :
        (b : Bool) (e : OrExpression)
        → LeavesOr TypedLeaf e
        → IsPlainOr b e
        → reads_or (value_of to_lower path_match a i) b e ≡ asks_or to_lower path_match a i b e
    reads_or-asks b (or_expression left right) h k =
        rw (reads_and-asks b left h.0 k.0, reads_or_rhs-asks b right h.1 k.1) refl

    reads_or_rhs-asks :
        (b : Bool) (es : OrRhs)
        → LeavesOrRhs TypedLeaf es
        → IsPlainOrRhs b es
        → reads_or_rhs (value_of to_lower path_match a i) b es
          ≡ asks_or_rhs to_lower path_match a i b es
    reads_or_rhs-asks b or_end h k = refl
    reads_or_rhs-asks b (or_rhs e rest) h k =
        rw (reads_and-asks b e h.0 k.0, reads_or_rhs-asks b rest h.1 k.1) refl

    reads_and-asks :
        (b : Bool) (e : AndExpression)
        → LeavesAnd TypedLeaf e
        → IsPlainAnd b e
        → reads_and (value_of to_lower path_match a i) b e ≡ asks_and to_lower path_match a i b e
    reads_and-asks b (and_expression left right) h k =
        rw (reads_equal-asks b left h.0 k.0, reads_and_rhs-asks b right h.1 k.1) refl

    reads_and_rhs-asks :
        (b : Bool) (es : AndRhs)
        → LeavesAndRhs TypedLeaf es
        → IsPlainAndRhs b es
        → reads_and_rhs (value_of to_lower path_match a i) b es
          ≡ asks_and_rhs to_lower path_match a i b es
    reads_and_rhs-asks b and_end h k = refl
    reads_and_rhs-asks b (and_rhs e rest) h k =
        rw (reads_equal-asks b e h.0 k.0, reads_and_rhs-asks b rest h.1 k.1) refl

    reads_equal-asks :
        (b : Bool) (e : EqualExpr)
        → LeavesEqual TypedLeaf e
        → IsPlainEqual b e
        → reads_equal (value_of to_lower path_match a i) b e
          ≡ asks_equal to_lower path_match a i b e
    reads_equal-asks b (paren is_not nested) h k =
        reads-asks (if is_not then not b else b) nested h k
    reads_equal-asks b e h k = leaf-asks to_lower path_match a i b e h k

  -- Where a well-typed query, whose lists on $key, $owner and $creator are of strings and,
  -- negations counted, have no `not`, is normalised, an entity satisfies the normal form exactly
  -- if it has what the query asks, read off its syntax tree by the operators' own meanings. A
  -- comparison and its negation both ask for the attribute; literals for those three names count
  -- in lower case.
  pub normalize-asks :
      (e : Expression) (ast : Ast)
      → Leaves TypedLeaf e
      → IsPlain true e
      → normalize to_lower (filtered e) ≡ ok ast
      → ast_holds (satisfies path_match a i) ast ≡ asks to_lower path_match a i true e
  normalize-asks e ast typed plain h =
      normalize-reads to_lower (satisfies path_match a i) (filtered e) ast h
      ∙ reads-asks true e typed plain
