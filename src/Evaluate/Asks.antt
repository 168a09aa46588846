-- ===== src/Evaluate/Asks.antt =====
-- What a query asks of the attributes of one entity, by the syntax of its comparisons: the README's
-- operators, with no reference to the normalised terms. A comparison and its negation both ask
-- for the attribute. The argument `b` is true under an even number of negations.
use pebble_bitmap_store_note.Prelude.{
  ℕ, Bool, true, false, not, ◌&&◌, ◌||◌, ◌≡◌, List, [], ◌∷◌, any, map, Bytes, bytes_eq, bytes_lt,
  codes, ltb, leb, ◌==◌, if◌then◌else◌,
}
use pebble_bitmap_store_note.Query.Language.{
  Value, string, number, Expression, expression, OrExpression, or_expression, OrRhs, or_end, or_rhs,
  AndExpression, and_expression, AndRhs, and_end, and_rhs, EqualExpr, paren, assign, inclusion,
  less_than, less_or_equal_than, greater_than, greater_or_equal_than, glob,
}
use pebble_bitmap_store_note.Index.Attributes.{Attributes, passes}

abbrev pub under : Bool → Bool → Bool
under true t = t
under false t = not t

-- The attributes whose values are in lower case.
unfoldable pub has_hex_value : Bytes → Bool
unfolding bytes_eq
has_hex_value var =
    bytes_eq var (codes "$key") || bytes_eq var (codes "$owner") || bytes_eq var (codes "$creator")

-- The sign of what stands under the polarity `b` and may say `not`.
abbrev pub sign : Bool → Bool → Bool
sign b is_not = if is_not then not b else b

module _ (to_lower : Bytes → Bytes) where
  abbrev pub literal : Bytes → Bytes → Bytes
  literal var s = if has_hex_value var then to_lower s else s

  module _ (path_match : Bytes → Bytes → Bool) (a : Attributes) (i : ℕ) where
    -- The attribute `var` is there, and the comparison of its value with the literal has the sign `b`.
    abbrev pub asks_value : Bool → Bytes → (Bytes → Bytes → Bool) → (ℕ → ℕ → Bool) → Value → Bool
    asks_value b var on_strings on_numbers (string s) =
        passes (λ v. under b (on_strings v (literal var s))) (a.strings i var)
    asks_value b var on_strings on_numbers (number n) =
        passes (λ v. under b (on_numbers v n)) (a.numbers i var)

    abbrev pub asks_one_of : Bool → Bytes → List Bytes → List ℕ → Bool
    asks_one_of b var [] numbers =
        passes (λ v. under b (any (λ w. v == w) numbers)) (a.numbers i var)
    asks_one_of b var (s ∷ strings) numbers =
        passes (λ v. under b (any (bytes_eq v) (map (literal var) (s ∷ strings)))) (a.strings i var)

    abbrev pub asks_leaf : Bool → EqualExpr → Bool
    asks_leaf b (paren is_not nested) = false
    asks_leaf b (assign e) = asks_value (sign b e.is_not) e.var bytes_eq ◌==◌ e.value
    asks_leaf b (inclusion e) =
        asks_one_of (sign b e.is_not) e.var e.values.strings e.values.numbers
    asks_leaf b (less_than e) = asks_value b e.var bytes_lt ltb e.value
    asks_leaf b (less_or_equal_than e) = asks_value b e.var (λ v s. not (bytes_lt s v)) leb e.value
    asks_leaf b (greater_than e) = asks_value b e.var (λ v s. bytes_lt s v) (λ v n. ltb n v) e.value
    asks_leaf b (greater_or_equal_than e) =
        asks_value b e.var (λ v s. not (bytes_lt v s)) (λ v n. leb n v) e.value
    asks_leaf b (glob e) =
        passes (λ v. under (sign b e.is_not) (path_match e.value v)) (a.strings i e.var)

    unfoldable mutual
      pub asks : Bool → Expression → Bool
      asks b (expression o) = asks_or b o

      pub asks_or : Bool → OrExpression → Bool
      asks_or b (or_expression left right) =
          if b
          then asks_and b left || asks_or_rhs b right
          else asks_and b left && asks_or_rhs b right

      pub asks_or_rhs : Bool → OrRhs → Bool
      asks_or_rhs b or_end = not b
      asks_or_rhs b (or_rhs e rest) =
          if b then asks_and b e || asks_or_rhs b rest else asks_and b e && asks_or_rhs b rest

      pub asks_and : Bool → AndExpression → Bool
      asks_and b (and_expression left right) =
          if b
          then asks_equal b left && asks_and_rhs b right
          else asks_equal b left || asks_and_rhs b right

      pub asks_and_rhs : Bool → AndRhs → Bool
      asks_and_rhs b and_end = b
      asks_and_rhs b (and_rhs e rest) =
          if b then asks_equal b e && asks_and_rhs b rest else asks_equal b e || asks_and_rhs b rest

      pub asks_equal : Bool → EqualExpr → Bool
      asks_equal b (paren is_not nested) = asks (sign b is_not) nested
      asks_equal b e = asks_leaf b e

-- A list on `$key`, `$owner` or `$creator` has strings and, with the negations around it, no `not`.
abbrev pub Plain : Bool → EqualExpr → Type 0
Plain b (inclusion e) =
    has_hex_value e.var ≡ true → (sign b e.is_not ≡ true) × (e.values.numbers ≡ [])
Plain b _ = Unit

unfoldable mutual
  pub IsPlain : Bool → Expression → Type 0
  IsPlain b (expression o) = IsPlainOr b o

  pub IsPlainOr : Bool → OrExpression → Type 0
  IsPlainOr b (or_expression left right) = IsPlainAnd b left × IsPlainOrRhs b right

  pub IsPlainOrRhs : Bool → OrRhs → Type 0
  IsPlainOrRhs b or_end = Unit
  IsPlainOrRhs b (or_rhs e rest) = IsPlainAnd b e × IsPlainOrRhs b rest

  pub IsPlainAnd : Bool → AndExpression → Type 0
  IsPlainAnd b (and_expression left right) = IsPlainEqual b left × IsPlainAndRhs b right

  pub IsPlainAndRhs : Bool → AndRhs → Type 0
  IsPlainAndRhs b and_end = Unit
  IsPlainAndRhs b (and_rhs e rest) = IsPlainEqual b e × IsPlainAndRhs b rest

  pub IsPlainEqual : Bool → EqualExpr → Type 0
  IsPlainEqual b (paren is_not nested) = IsPlain (sign b is_not) nested
  IsPlainEqual b e = Plain b e
