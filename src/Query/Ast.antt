-- ===== src/Query/Ast.antt =====
-- query/normalize.go: the normalised tree, a disjunction of conjunctions of terms. `ASTExpr`,
-- `ASTOr` and `ASTAnd` are structs of one field and stand as that field.
use pebble_bitmap_store_note.Prelude.{Bool, List, Option, none, some, true, all, any}
use pebble_bitmap_store_note.Query.Language.{
  Glob, LessThan, LessOrEqualThan, GreaterThan, GreaterOrEqualThan, Equality, Inclusion,
}

pub data AstTerm : Type 0 where
  assign : Equality → AstTerm
  inclusion : Inclusion → AstTerm
  less_than : LessThan → AstTerm
  less_or_equal_than : LessOrEqualThan → AstTerm
  greater_than : GreaterThan → AstTerm
  greater_or_equal_than : GreaterOrEqualThan → AstTerm
  glob : Glob → AstTerm

abbrev pub AstAnd : Type 0
AstAnd = List AstTerm

abbrev pub AstOr : Type 0
AstOr = List AstAnd

-- `none` is the nil `Expr` of a query for everything.
abbrev pub Ast : Type 0
Ast = Option AstOr

-- What a normalised tree says, for a valuation of its terms.
abbrev pub holds : (AstTerm → Bool) → AstOr → Bool
holds v = any (all v)

abbrev pub ast_holds : (AstTerm → Bool) → Ast → Bool
ast_holds v none = true
ast_holds v (some o) = holds v o
