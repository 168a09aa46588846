-- ===== src/Query/Tests.antt =====
-- Runs of the query normaliser, and the theorems at concrete queries.
use pebble_bitmap_store_note.Prelude.{
  ◌≡◌, refl, Bool, true, false, not, [], ◌∷◌, some, Bytes, codes, ok, err, panic,
}
use pebble_bitmap_store_note.Query.Language.{
  number, Values, Expression, expression, or_expression, or_end, and_expression, and_end, and_rhs,
  EqualExpr, paren, assign, less_than, inclusion, filtered,
}
use pebble_bitmap_store_note.Query.Ast.{AstTerm, AstOr, Ast, ast_holds}
use pebble_bitmap_store_note.Query.Depth.{depth}
use pebble_bitmap_store_note.Query.Invert.{invert_expression, invert_and, invert_equal_expr}
use pebble_bitmap_store_note.Query.Meaning.{Leaves, Complements, means}
use pebble_bitmap_store_note.Query.Normalize.{
  is_hex_attribute, normalize, normalize_expression, normalize_or, normalize_equal_expr, cross,
  distribute,
}
use pebble_bitmap_store_note.Query.Normalize.Correct.{leaf_value}
use pebble_bitmap_store_note.Query.Normalize.Total.{TypedLeaf, IsDnf, Ends}
use pebble_bitmap_store_note.Query.Normalize.Parse.{
  normalize-total, normalize-means, normalize-Ends,
}
use pebble_bitmap_store_note.Query.Normalize.Flaws.{
  leaf_query, normalize-inclusion_drops_not, normalize-number_panics,
}

abbrev same : Bytes → Bytes
same s = s

-- a = 1, b < 2
abbrev a_is_one : EqualExpr
a_is_one = assign (record { var = codes "a"; is_not = false; value = number 1 })

abbrev b_below_two : EqualExpr
b_below_two = less_than (record { var = codes "b"; value = number 2 })

-- !(a = 1 && b < 2)
abbrev negated : Expression
negated = leaf_query (
    paren true
      (expression (or_expression (and_expression a_is_one (and_rhs b_below_two and_end)) or_end)))

-- a != 1 || b >= 2
abbrev negated_ast : AstOr
negated_ast =
    (AstTerm.assign (record { var = codes "a"; is_not = true; value = number 1 }) ∷ [])
    ∷ (AstTerm.greater_or_equal_than (record { var = codes "b"; value = number 2 }) ∷ [])
    ∷ []

normalize-negated : normalize same (filtered negated) ≡ ok (some negated_ast)
unfolding normalize normalize_expression normalize_or normalize_equal_expr depth invert_expression
    invert_and invert_equal_expr is_hex_attribute cross distribute
normalize-negated = refl

-- An entity with a = 1 and b = 5.
abbrev sample : AstTerm → Bool
sample (AstTerm.assign e) = not e.is_not
sample (AstTerm.less_than e) = false
sample (AstTerm.greater_or_equal_than e) = true
sample _ = false

negated-typed : Leaves TypedLeaf negated
unfolding Leaves is_hex_attribute
negated-typed = ((((refl, (refl, tt)), tt), tt), tt)

normalize-total_example : (o : AstOr) × (normalize same (filtered negated) ≡ ok (some o)) × IsDnf o
normalize-total_example = normalize-total same negated negated-typed

negated-Complements : Leaves (Complements (leaf_value same sample)) negated
unfolding Leaves normalize_equal_expr invert_equal_expr is_hex_attribute
negated-Complements = ((((refl, (refl, tt)), tt), tt), tt)

normalize-means_example :
    (a : Ast) × (normalize same (filtered negated) ≡ ok a)
    × (ast_holds sample a ≡ means (leaf_value same sample) negated)
normalize-means_example = normalize-means same sample negated negated-typed negated-Complements

normalize-Ends_example : Ends (normalize same (filtered negated))
normalize-Ends_example = normalize-Ends same (filtered negated)

owner_is_hex : is_hex_attribute (codes "$owner") ≡ true
unfolding is_hex_attribute
owner_is_hex = refl

abbrev owners : Values
owners = record { strings = codes "0xAB" ∷ []; numbers = [] }

normalize-inclusion_drops_not_example :
    normalize same (
      filtered
        (leaf_query (inclusion (record { var = codes "$owner"; is_not = true; values = owners }))))
    ≡ normalize same (
        filtered (
          leaf_query
            (inclusion (record { var = codes "$owner"; is_not = false; values = owners }))))
normalize-inclusion_drops_not_example =
    normalize-inclusion_drops_not same (codes "$owner") owner_is_hex owners

normalize-number_panics_example :
    normalize same (
      filtered
        (leaf_query (assign (record { var = codes "$owner"; is_not = false; value = number 123 }))))
    ≡ err panic
normalize-number_panics_example =
    normalize-number_panics same (codes "$owner") owner_is_hex false 123
