-- ===== src/Evaluate/Satisfies.antt =====
-- What a term asks of the attributes of one entity.
use pebble_bitmap_store_note.Prelude.{
  ℕ, Bool, not, List, [], ◌∷◌, any, Bytes, bytes_eq, bytes_lt, ltb, leb, ◌==◌, if◌then◌else◌,
}
use pebble_bitmap_store_note.Query.Language.{string, number, Value}
use pebble_bitmap_store_note.Index.Attributes.{Attributes, passes}
use pebble_bitmap_store_note.Query.Ast.{
  AstTerm, assign, inclusion, less_than, less_or_equal_than, greater_than, greater_or_equal_than,
  glob,
}

-- The entity `i` has an attribute `var` whose value, of the type of the literal, passes the test.
abbrev pub compares :
    Attributes → ℕ → Bytes → (Bytes → Bytes → Bool) → (ℕ → ℕ → Bool) → Value → Bool
compares a i var on_strings on_numbers (string s) = passes (λ v. on_strings v s) (a.strings i var)
compares a i var on_strings on_numbers (number n) = passes (λ v. on_numbers v n) (a.numbers i var)

abbrev pub lists : Attributes → ℕ → Bytes → Bool → List Bytes → List ℕ → Bool
lists a i var is_not [] numbers =
    passes (λ v. if is_not then not (any (λ w. v == w) numbers) else any (λ w. v == w) numbers)
      (a.numbers i var)
lists a i var is_not (s ∷ strings) numbers =
    passes
      (λ v. if is_not then not (any (bytes_eq v) (s ∷ strings)) else any (bytes_eq v) (s ∷ strings))
      (a.strings i var)

module _ (path_match : Bytes → Bytes → Bool) (a : Attributes) (i : ℕ) where
  -- A negated term asks for the attribute too: an entity without it satisfies neither `=` nor `!=`.
  unfoldable pub satisfies : AstTerm → Bool
  satisfies (assign e) =
      compares a i e.var (λ v s. if e.is_not then not (bytes_eq v s) else bytes_eq v s)
        (λ v n. if e.is_not then not (v == n) else v == n) e.value
  satisfies (inclusion e) = lists a i e.var e.is_not e.values.strings e.values.numbers
  satisfies (less_than e) = compares a i e.var bytes_lt ltb e.value
  satisfies (less_or_equal_than e) = compares a i e.var (λ v s. not (bytes_lt s v)) leb e.value
  satisfies (greater_than e) = compares a i e.var (λ v s. bytes_lt s v) (λ v n. ltb n v) e.value
  satisfies (greater_or_equal_than e) =
      compares a i e.var (λ v s. not (bytes_lt v s)) (λ v n. leb n v) e.value
  satisfies (glob e) =
      passes (λ v. if e.is_not then not (path_match e.value v) else path_match e.value v)
        (a.strings i e.var)
