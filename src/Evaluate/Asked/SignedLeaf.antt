-- ===== src/Evaluate/Asked/SignedLeaf.antt =====
-- What a leaf asks, and the value of its normal form.
use mathlib.Core.List.{map-id}
use pebble_bitmap_store_note.Prelude.{
  ℕ, ◌≡◌, refl, sym, ap, ap₂, ◌∙◌, Bool, true, false, not, Option, none, some, List, [], ◌∷◌, any,
  map, Bytes, bytes_eq, bytes_lt, ltb, leb, ◌==◌, Result, ok, err, ◌>>=◌, Bool-cases, inl, inr,
  arith, if◌then◌else◌,
}
use pebble_bitmap_store_note.Query.Language.{
  Value, string, number, EqualExpr, paren, assign, inclusion, less_than, less_or_equal_than,
  greater_than, greater_or_equal_than, glob,
}
use pebble_bitmap_store_note.Query.Ast.{AstTerm}
use pebble_bitmap_store_note.Query.Invert.{invert_equal_expr}
use pebble_bitmap_store_note.Query.Normalize.{
  is_hex_attribute, lower_value, normalize_inclusion, normalize_equal_expr,
}
use pebble_bitmap_store_note.Query.Normalize.Correct.{leaf_value}
use pebble_bitmap_store_note.Query.Normalize.Total.{TypedValue, TypedLeaf, lowered, lower_typed}
use pebble_bitmap_store_note.Index.Attributes.{Attributes, passes}
use pebble_bitmap_store_note.Evaluate.Satisfies.{satisfies, compares, lists}
use pebble_bitmap_store_note.Evaluate.Asks.{
  under, sign, has_hex_value, literal, asks_value, asks_one_of, asks_leaf, Plain,
}

passes-cong :
    {V : Type 0} (f g : V → Bool) (o : Option V) → ((v : V) → f v ≡ g v) → passes f o ≡ passes g o
passes-cong f g none h = refl
passes-cong f g (some v) h = h v

same_names : (var : Bytes) → has_hex_value var ≡ is_hex_attribute var
unfolding has_hex_value is_hex_attribute
same_names var = refl

under-not : (b t : Bool) → under (not b) t ≡ not (under b t)
under-not b t = ground arith

numbers_below : (b : Bool) (v n : ℕ) → (if b then ltb v n else leb n v) ≡ under b (ltb v n)
numbers_below true v n = refl
numbers_below false v n = ground arith

numbers_up_to : (b : Bool) (v n : ℕ) → (if b then leb v n else ltb n v) ≡ under b (leb v n)
numbers_up_to true v n = refl
numbers_up_to false v n = ground arith

numbers_above : (v n : ℕ) → leb v n ≡ not (ltb n v)
numbers_above v n = ground arith

numbers_from : (v n : ℕ) → ltb v n ≡ not (leb n v)
numbers_from v n = ground arith

not-not : (t : Bool) → t ≡ not (not t)
not-not t = ground arith

-- The test of a term that may say `not`.
test_sign : (n t : Bool) → (if n then not t else t) ≡ under (sign true n) t
test_sign n t = ground arith

test_sign-not : (n t : Bool) → (if not n then not t else t) ≡ under (sign false n) t
test_sign-not n t = ground arith

module _ (to_lower : Bytes → Bytes) (path_match : Bytes → Bytes → Bool) (a : Attributes)
    (i : ℕ) where
  -- The value of a leaf's normal form.
  abbrev pub value_of : EqualExpr → Bool
  value_of = leaf_value to_lower (satisfies path_match a i)

  compares-asks :
      (b : Bool) (var : Bytes) (on_strings of_strings : Bytes → Bytes → Bool)
      (on_numbers of_numbers : ℕ → ℕ → Bool) (v : Value)
      → ((w s : Bytes) → of_strings w s ≡ under b (on_strings w s))
      → ((w n : ℕ) → of_numbers w n ≡ under b (on_numbers w n))
      → compares a i var of_strings of_numbers (lowered to_lower var v)
        ≡ asks_value to_lower path_match a i b var on_strings on_numbers v
  compares-asks b var on_strings of_strings on_numbers of_numbers (string s) h k =
      elim (Bool-cases (is_hex_attribute var)) [
        | inl e ↦ rw (same_names var, e) (passes-cong _ _ (a.strings i var) (λ w. h w (to_lower s)))
        | inr e ↦ rw (same_names var, e) (passes-cong _ _ (a.strings i var) (λ w. h w s))
      ]
  compares-asks b var on_strings of_strings on_numbers of_numbers (number n) h k =
      passes-cong _ _ (a.numbers i var) (λ w. k w n)

  term_value : Result AstTerm → Bool
  term_value r = elim r [ ok t ↦ satisfies path_match a i t | err _ ↦ false ]

  comparison :
      {E : Type 0} (f : Value → E) (g : E → AstTerm) (var : Bytes) (v : Value)
      → TypedValue var v
      → term_value (
          (if is_hex_attribute var
            then (lower_value to_lower v >>= λ val. ok (f val))
            else ok (f v))
          >>= λ n. ok (g n))
        ≡ satisfies path_match a i (g (f (lowered to_lower var v)))
  unfolding term_value
  comparison f g var v h =
      ap (λ r. term_value (r >>= λ n. ok (g n))) (lower_typed to_lower f var v h)

  map-literal :
      (var : Bytes) (f : Bytes → Bytes) (strings : List Bytes)
      → ((s : Bytes) → literal to_lower var s ≡ f s)
      → map (literal to_lower var) strings ≡ map f strings
  map-literal var f [] h = refl
  map-literal var f (s ∷ strings) h = ap₂ ◌∷◌ (h s) (map-literal var f strings h)

  lists-signed :
      (c n : Bool) (var : Bytes) (strings : List Bytes) (numbers : List ℕ)
      → has_hex_value var ≡ false
      → ((t : Bool) → (if n then not t else t) ≡ under c t)
      → lists a i var n strings numbers ≡ asks_one_of to_lower path_match a i c var strings numbers
  lists-signed c n var [] numbers e h =
      passes-cong _ _ (a.numbers i var) (λ v. h (any (λ w. v == w) numbers))
  lists-signed c n var (s ∷ strings) numbers e h = passes-cong _ _ (a.strings i var) (λ v.
      h (any (bytes_eq v) (s ∷ strings))
      ∙ ap (λ l. under c (any (bytes_eq v) l))
          (sym (map-literal var (λ w. w) (s ∷ strings) (λ w. rw e refl) ∙ map-id (s ∷ strings))))

  lists-asks :
      (b is_not n : Bool) (var : Bytes) (strings : List Bytes) (numbers : List ℕ)
      → (has_hex_value var ≡ true → (sign b is_not ≡ true) × (numbers ≡ []))
      → ((t : Bool) → (if n then not t else t) ≡ under (sign b is_not) t)
      → satisfies path_match a i (
          AstTerm.inclusion (
            normalize_inclusion to_lower (record {
              var = var;
              is_not = n;
              values = record { strings = strings; numbers = numbers };
            })))
        ≡ asks_one_of to_lower path_match a i (sign b is_not) var strings numbers
  unfolding satisfies normalize_inclusion
  lists-asks b is_not n var [] numbers k h = elim (Bool-cases (is_hex_attribute var)) [
    | inl e ↦ let (sure, none_left) = k (same_names var ∙ e) in rw (e, sure, none_left) refl
    | inr e ↦ rw e (lists-signed (sign b is_not) n var [] numbers (same_names var ∙ e) h)
  ]
  lists-asks b is_not n var (s ∷ strings) numbers k h = elim (Bool-cases (is_hex_attribute var)) [
    | inl e ↦
        let (sure, none_left) = k (same_names var ∙ e) in
        rw (e, sure)
          (passes-cong _ _ (a.strings i var) (λ v.
            ap (any (bytes_eq v))
              (sym (map-literal var to_lower (s ∷ strings) (λ w. rw (same_names var, e) refl)))))
    | inr e ↦ rw e (lists-signed (sign b is_not) n var (s ∷ strings) numbers (same_names var ∙ e) h)
  ]

  -- A leaf, under either polarity, says what it asks.
  pub leaf-asks :
      (b : Bool) (e : EqualExpr)
      → TypedLeaf e
      → Plain b e
      → (if b then value_of e else value_of (invert_equal_expr e))
        ≡ asks_leaf to_lower path_match a i b e
  unfolding term_value normalize_equal_expr invert_equal_expr satisfies
  leaf-asks b (paren is_not nested) h k = absurd h
  leaf-asks true (less_than e) h k =
      comparison (λ val. record { var = e.var; value = val }) AstTerm.less_than e.var e.value h
      ∙ compares-asks true e.var bytes_lt bytes_lt ltb ltb e.value (λ w s. refl) (λ w n. refl)
  leaf-asks false (less_than e) h k =
      comparison (λ val. record { var = e.var; value = val }) AstTerm.greater_or_equal_than e.var
        e.value h
      ∙ compares-asks false e.var bytes_lt (λ v s. not (bytes_lt v s)) ltb (λ v n. leb n v) e.value
          (λ w s. refl) (numbers_below false)
  leaf-asks true (less_or_equal_than e) h k =
      comparison (λ val. record { var = e.var; value = val }) AstTerm.less_or_equal_than e.var
        e.value h
      ∙ compares-asks true e.var (λ v s. not (bytes_lt s v)) (λ v s. not (bytes_lt s v)) leb leb
          e.value (λ w s. refl) (λ w n. refl)
  leaf-asks false (less_or_equal_than e) h k =
      comparison (λ val. record { var = e.var; value = val }) AstTerm.greater_than e.var e.value h
      ∙ compares-asks false e.var (λ v s. not (bytes_lt s v)) (λ v s. bytes_lt s v) leb
          (λ v n. ltb n v) e.value (λ w s. not-not (bytes_lt s w)) (numbers_up_to false)
  leaf-asks true (greater_than e) h k =
      comparison (λ val. record { var = e.var; value = val }) AstTerm.greater_than e.var e.value h
      ∙ compares-asks true e.var (λ v s. bytes_lt s v) (λ v s. bytes_lt s v) (λ v n. ltb n v)
          (λ v n. ltb n v) e.value (λ w s. refl) (λ w n. refl)
  leaf-asks false (greater_than e) h k =
      comparison (λ val. record { var = e.var; value = val }) AstTerm.less_or_equal_than e.var
        e.value h
      ∙ compares-asks false e.var (λ v s. bytes_lt s v) (λ v s. not (bytes_lt s v)) (λ v n. ltb n v)
          leb e.value (λ w s. refl) (λ w n. numbers_above w n)
  leaf-asks true (greater_or_equal_than e) h k =
      comparison (λ val. record { var = e.var; value = val }) AstTerm.greater_or_equal_than e.var
        e.value h
      ∙ compares-asks true e.var (λ v s. not (bytes_lt v s)) (λ v s. not (bytes_lt v s))
          (λ v n. leb n v) (λ v n. leb n v) e.value (λ w s. refl) (λ w n. refl)
  leaf-asks false (greater_or_equal_than e) h k =
      comparison (λ val. record { var = e.var; value = val }) AstTerm.less_than e.var e.value h
      ∙ compares-asks false e.var (λ v s. not (bytes_lt v s)) bytes_lt (λ v n. leb n v) ltb e.value
          (λ w s. not-not (bytes_lt w s)) (λ w n. numbers_from w n)
  leaf-asks true (assign e) h k =
      comparison (λ val. record { var = e.var; is_not = e.is_not; value = val }) AstTerm.assign
        e.var e.value h
      ∙ compares-asks (sign true e.is_not) e.var bytes_eq
          (λ v s. if e.is_not then not (bytes_eq v s) else bytes_eq v s) ◌==◌
          (λ v n. if e.is_not then not (v == n) else v == n) e.value
          (λ w s. test_sign e.is_not (bytes_eq w s)) (λ w n. test_sign e.is_not (w == n))
  leaf-asks true (inclusion e) h k =
      lists-asks true e.is_not e.is_not e.var e.values.strings e.values.numbers k
        (test_sign e.is_not)
  leaf-asks true (glob e) h k =
      passes-cong _ _ (a.strings i e.var) (λ v. test_sign e.is_not (path_match e.value v))
  leaf-asks false (assign e) h k =
      comparison (λ val. record { var = e.var; is_not = (not e.is_not); value = val })
        AstTerm.assign e.var e.value h
      ∙ compares-asks (sign false e.is_not) e.var bytes_eq
          (λ v s. if (not e.is_not) then not (bytes_eq v s) else bytes_eq v s) ◌==◌
          (λ v n. if (not e.is_not) then not (v == n) else v == n) e.value
          (λ w s. test_sign-not e.is_not (bytes_eq w s)) (λ w n. test_sign-not e.is_not (w == n))
  leaf-asks false (inclusion e) h k =
      lists-asks false e.is_not (not e.is_not) e.var e.values.strings e.values.numbers k
        (test_sign-not e.is_not)
  leaf-asks false (glob e) h k =
      passes-cong _ _ (a.strings i e.var) (λ v. test_sign-not e.is_not (path_match e.value v))
