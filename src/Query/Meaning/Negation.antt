-- ===== src/Query/Meaning/Negation.antt =====
-- The reading under polarities and the Boolean one.
use pebble_bitmap_store_note.Prelude.{
  ◌≡◌, refl, ◌∙◌, Bool, true, false, not, ◌&&◌, ◌||◌, arith, if◌then◌else◌,
}
use pebble_bitmap_store_note.Query.Language.{
  Expression, expression, OrExpression, or_expression, OrRhs, or_end, or_rhs, AndExpression,
  and_expression, AndRhs, and_end, and_rhs, EqualExpr, paren,
}
use pebble_bitmap_store_note.Query.Invert.{invert_equal_expr}
use pebble_bitmap_store_note.Query.Meaning.EveryLeaf.{
  Leaves, LeavesOr, LeavesOrRhs, LeavesAnd, LeavesAndRhs, LeavesEqual,
}
use pebble_bitmap_store_note.Query.Meaning.Classical.{
  means, means_or, means_or_rhs, means_and, means_and_rhs, means_equal,
}
use pebble_bitmap_store_note.Query.Meaning.Polarity.{
  reads, reads_or, reads_or_rhs, reads_and, reads_and_rhs, reads_equal,
}

-- Inverting the leaf `e` negates its value.
abbrev pub Complements : (EqualExpr → Bool) → EqualExpr → Type 0
Complements u e = u (invert_equal_expr e) ≡ not (u e)

-- `x` under `b`: negated where `b` is false.
abbrev pub signed : Bool → Bool → Bool
signed b x = if b then x else not x

signed-paren :
    (b n x : Bool) → signed (if n then not b else b) x ≡ signed b (if n then not x else x)
signed-paren b n x = ground arith

signed-or :
    (b x y : Bool)
    → (if b then signed b x || signed b y else signed b x && signed b y) ≡ signed b (x || y)
signed-or b x y = ground arith

signed-and :
    (b x y : Bool)
    → (if b then signed b x && signed b y else signed b x || signed b y) ≡ signed b (x && y)
signed-and b x y = ground arith

signed-leaf :
    (u : EqualExpr → Bool) (b : Bool) (e : EqualExpr)
    → Complements u e
    → (if b then u e else u (invert_equal_expr e)) ≡ signed b (u e)
signed-leaf u true e c = refl
signed-leaf u false e c = c

mutual
  unfolding reads means Leaves

  reads-signed :
      (u : EqualExpr → Bool) (b : Bool) (e : Expression)
      → Leaves (Complements u) e
      → reads u b e ≡ signed b (means u e)
  reads-signed u b (expression o) c = reads_or-signed u b o c

  reads_or-signed :
      (u : EqualExpr → Bool) (b : Bool) (e : OrExpression)
      → LeavesOr (Complements u) e
      → reads_or u b e ≡ signed b (means_or u e)
  reads_or-signed u b (or_expression left right) c =
      rw (reads_and-signed u b left c.0, reads_or_rhs-signed u b right c.1)
        (signed-or b (means_and u left) (means_or_rhs u right))

  reads_or_rhs-signed :
      (u : EqualExpr → Bool) (b : Bool) (es : OrRhs)
      → LeavesOrRhs (Complements u) es
      → reads_or_rhs u b es ≡ signed b (means_or_rhs u es)
  reads_or_rhs-signed u b or_end c = ground arith
  reads_or_rhs-signed u b (or_rhs e rest) c =
      rw (reads_and-signed u b e c.0, reads_or_rhs-signed u b rest c.1)
        (signed-or b (means_and u e) (means_or_rhs u rest))

  reads_and-signed :
      (u : EqualExpr → Bool) (b : Bool) (e : AndExpression)
      → LeavesAnd (Complements u) e
      → reads_and u b e ≡ signed b (means_and u e)
  reads_and-signed u b (and_expression left right) c =
      rw (reads_equal-signed u b left c.0, reads_and_rhs-signed u b right c.1)
        (signed-and b (means_equal u left) (means_and_rhs u right))

  reads_and_rhs-signed :
      (u : EqualExpr → Bool) (b : Bool) (es : AndRhs)
      → LeavesAndRhs (Complements u) es
      → reads_and_rhs u b es ≡ signed b (means_and_rhs u es)
  reads_and_rhs-signed u b and_end c = ground arith
  reads_and_rhs-signed u b (and_rhs e rest) c =
      rw (reads_equal-signed u b e c.0, reads_and_rhs-signed u b rest c.1)
        (signed-and b (means_equal u e) (means_and_rhs u rest))

  reads_equal-signed :
      (u : EqualExpr → Bool) (b : Bool) (e : EqualExpr)
      → LeavesEqual (Complements u) e
      → reads_equal u b e ≡ signed b (means_equal u e)
  reads_equal-signed u b (paren is_not nested) c =
      reads-signed u (if is_not then not b else b) nested c ∙ signed-paren b is_not (means u nested)
  reads_equal-signed u b e c = signed-leaf u b e c

-- With leaves that their inverse negates, a query is read as its Boolean meaning.
pub reads-eq-means :
    (u : EqualExpr → Bool) (e : Expression) → Leaves (Complements u) e → reads u true e ≡ means u e
reads-eq-means u e c = reads-signed u true e c
