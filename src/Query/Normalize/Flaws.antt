-- ===== src/Query/Normalize/Flaws.antt =====
-- Two queries that normalisation does not treat as meant.
use pebble_bitmap_store_note.Prelude.{ℕ, ◌≡◌, Bool, true, false, Bytes, err, panic}
use pebble_bitmap_store_note.Query.Language.{
  Values, number, Expression, expression, or_expression, or_end, and_expression, and_end, EqualExpr,
  assign, inclusion, filtered,
}
use pebble_bitmap_store_note.Query.Depth.{depth}
use pebble_bitmap_store_note.Query.Normalize.{
  is_hex_attribute, normalize, normalize_expression, normalize_or, normalize_equal_expr,
}

-- The query that consists of one leaf.
abbrev pub leaf_query : EqualExpr → Expression
leaf_query e = expression (or_expression (and_expression e and_end) or_end)

module _ (to_lower : Bytes → Bytes) (var : Bytes) (hex : is_hex_attribute var ≡ true) where
  -- On `$key`, `$owner` and `$creator`, `not in` has the normal form of `in`: both select the
  -- entities whose value is listed.
  pub normalize-inclusion_drops_not :
      (vals : Values)
      → normalize to_lower
          (filtered (leaf_query (inclusion (record { var = var; is_not = true; values = vals }))))
        ≡ normalize to_lower (
            filtered (leaf_query (inclusion (record { var = var; is_not = false; values = vals }))))
  unfolding normalize normalize_expression normalize_or normalize_equal_expr depth
  normalize-inclusion_drops_not vals = rw hex

  -- On the same attributes a comparison by `=` or `!=` with a number panics.
  pub normalize-number_panics :
      (is_not : Bool) (n : ℕ)
      → normalize to_lower
          (filtered (leaf_query (assign (record { var = var; is_not = is_not; value = number n }))))
        ≡ err panic
  unfolding normalize normalize_expression normalize_or normalize_equal_expr depth
  normalize-number_panics is_not n = rw hex
