-- ===== src/Evaluate/Terms.antt =====
-- The bitmap of a term.
mod Unions
use pebble_bitmap_store_note.Prelude.{
  ℕ, ◌≡◌, ◌∙◌, Bool, true, false, not, List, [], ◌∷◌, any, Bytes, bytes_eq, bytes_lt, ltb, leb,
  ◌==◌, ok, ◌>>=◌, if◌then◌else◌,
}
use pebble_bitmap_store_note.Packages.PebbleDb.{Pebble}
use pebble_bitmap_store_note.Packages.Roaring64.{Roaring}
use pebble_bitmap_store_note.Query.Language.{
  string, number, Value, LessThan, LessOrEqualThan, GreaterThan, GreaterOrEqualThan,
}
use pebble_bitmap_store_note.Query.Ast.{
  AstTerm, assign, inclusion, less_than, less_or_equal_than, greater_than, greater_or_equal_than,
  glob,
}
use pebble_bitmap_store_note.Index.Bitmaps.Stored.{
  contains-get_string_bitmap, contains-get_numeric_bitmap,
}
use pebble_bitmap_store_note.Index.Attributes.{Attributes, Indexes, passes, FitsString, FitsNumber}
use pebble_bitmap_store_note.Index.Layouts.{IsName}
use pebble_bitmap_store_note.Index.Values.{
  scan_distinct_string_values, scan_distinct_numeric_values, matching_string_values_not_equal,
  matching_string_values_less_than, matching_string_values_greater_than,
  matching_string_values_less_or_equal_than, matching_string_values_greater_or_equal_than,
  matching_string_values_glob, matching_string_values_not_glob, matching_string_values_inclusion,
  matching_string_values_not_inclusion, matching_numeric_values_not_equal,
  matching_numeric_values_less_than, matching_numeric_values_greater_than,
  matching_numeric_values_less_or_equal_than, matching_numeric_values_greater_or_equal_than,
  matching_numeric_values_inclusion, matching_numeric_values_not_inclusion,
}
use pebble_bitmap_store_note.Evaluate.{
  reconstruct_string_bitmaps_or, reconstruct_numeric_bitmaps_or, evaluate_less_than,
  evaluate_less_or_equal_than, evaluate_greater_than, evaluate_greater_or_equal_than,
  evaluate_equality, evaluate_inclusion, evaluate_glob, evaluate_term,
}
use pebble_bitmap_store_note.Evaluate.Satisfies.{compares, lists, satisfies}
use Unions.{contains-string_scan, contains-numeric_scan}

-- The literal of an equality is one that the index can hold.
abbrev pub FitsValue : Bytes → Value → Type 0
FitsValue var (string s) = FitsString var s
FitsValue var (number n) = FitsNumber var n

-- A term that a scan and a lookup can read: its name is one that an index key can have, and the
-- literal of an equality too.
abbrev pub IsReadable : AstTerm → Type 0
IsReadable (assign e) = IsName e.var × FitsValue e.var e.value
IsReadable (inclusion e) = IsName e.var
IsReadable (less_than e) = IsName e.var
IsReadable (less_or_equal_than e) = IsName e.var
IsReadable (greater_than e) = IsName e.var
IsReadable (greater_or_equal_than e) = IsName e.var
IsReadable (glob e) = IsName e.var

module _ (p : Pebble) (r : Roaring) (d : p.Db) (a : Attributes) (x : Indexes p r d a) (i : ℕ) where
  open r use {Bitmap, contains}

  -- The shape that the four comparisons share.
  compare-contains :
      (on_strings : Bytes → Bytes → Bool) (on_numbers : ℕ → ℕ → Bool) (var : Bytes) (value : Value)
      (b : Bitmap)
      → IsName var
      → elim value [
        | string s ↦ scan_distinct_string_values p d var (λ v. on_strings v s) >>= λ values.
            reconstruct_string_bitmaps_or p r d var values
        | number n ↦ scan_distinct_numeric_values p d var (λ v. on_numbers v n) >>= λ values.
            reconstruct_numeric_bitmaps_or p r d var values
      ]
        ≡ ok b
      → contains b i ≡ compares a i var on_strings on_numbers value
  compare-contains on_strings on_numbers var (string s) b n h =
      contains-string_scan p r d a x i var n (λ v. on_strings v s) b h
  compare-contains on_strings on_numbers var (number m) b n h =
      contains-numeric_scan p r d a x i var n (λ v. on_numbers v m) b h

  less_than-contains :
      (e : LessThan) (b : Bitmap)
      → IsName e.var
      → evaluate_less_than p r d e ≡ ok b
      → contains b i ≡ compares a i e.var bytes_lt ltb e.value
  unfolding evaluate_less_than matching_string_values_less_than matching_numeric_values_less_than
  less_than-contains e = compare-contains bytes_lt ltb e.var e.value

  less_or_equal_than-contains :
      (e : LessOrEqualThan) (b : Bitmap)
      → IsName e.var
      → evaluate_less_or_equal_than p r d e ≡ ok b
      → contains b i ≡ compares a i e.var (λ v s. not (bytes_lt s v)) leb e.value
  unfolding evaluate_less_or_equal_than matching_string_values_less_or_equal_than
      matching_numeric_values_less_or_equal_than
  less_or_equal_than-contains e = compare-contains (λ v s. not (bytes_lt s v)) leb e.var e.value

  greater_than-contains :
      (e : GreaterThan) (b : Bitmap)
      → IsName e.var
      → evaluate_greater_than p r d e ≡ ok b
      → contains b i ≡ compares a i e.var (λ v s. bytes_lt s v) (λ v n. ltb n v) e.value
  unfolding evaluate_greater_than matching_string_values_greater_than
      matching_numeric_values_greater_than
  greater_than-contains e = compare-contains (λ v s. bytes_lt s v) (λ v n. ltb n v) e.var e.value

  greater_or_equal_than-contains :
      (e : GreaterOrEqualThan) (b : Bitmap)
      → IsName e.var
      → evaluate_greater_or_equal_than p r d e ≡ ok b
      → contains b i ≡ compares a i e.var (λ v s. not (bytes_lt v s)) (λ v n. leb n v) e.value
  unfolding evaluate_greater_or_equal_than matching_string_values_greater_or_equal_than
      matching_numeric_values_greater_or_equal_than
  greater_or_equal_than-contains e =
      compare-contains (λ v s. not (bytes_lt v s)) (λ v n. leb n v) e.var e.value

  equality_contains :
      (var : Bytes) (is_not : Bool) (value : Value) (b : Bitmap)
      → IsName var
      → FitsValue var value
      → evaluate_equality p r d (record { var = var; is_not = is_not; value = value }) ≡ ok b
      → contains b i
        ≡ compares a i var
            (λ v s. if is_not then not (bytes_eq v s) else bytes_eq v s)
            (λ v n. if is_not then not (v == n) else v == n)
            value
  unfolding evaluate_equality matching_string_values_not_equal matching_numeric_values_not_equal
  equality_contains var true (string s) b n fits h =
      contains-string_scan p r d a x i var n (λ v. not (bytes_eq v s)) b h
  equality_contains var false (string s) b n fits h =
      contains-get_string_bitmap p r d var s b i h ∙ x.string_stored i var s fits
  equality_contains var true (number m) b n fits h =
      contains-numeric_scan p r d a x i var n (λ v. not (v == m)) b h
  equality_contains var false (number m) b n fits h =
      contains-get_numeric_bitmap p r d var m b i h ∙ x.number_stored i var m fits

  inclusion_contains :
      (var : Bytes) (is_not : Bool) (strings : List Bytes) (numbers : List ℕ) (b : Bitmap)
      → IsName var
      → evaluate_inclusion p r d (record {
        var = var;
        is_not = is_not;
        values = record { strings = strings; numbers = numbers };
      })
        ≡ ok b
      → contains b i ≡ lists a i var is_not strings numbers
  unfolding evaluate_inclusion matching_string_values_inclusion matching_string_values_not_inclusion
      matching_numeric_values_inclusion matching_numeric_values_not_inclusion
  inclusion_contains var true [] numbers b n =
      contains-numeric_scan p r d a x i var n (λ v. not (any (λ w. v == w) numbers)) b
  inclusion_contains var false [] numbers b n =
      contains-numeric_scan p r d a x i var n (λ v. any (λ w. v == w) numbers) b
  inclusion_contains var true (s ∷ strings) numbers b n =
      contains-string_scan p r d a x i var n (λ v. not (any (bytes_eq v) (s ∷ strings))) b
  inclusion_contains var false (s ∷ strings) numbers b n =
      contains-string_scan p r d a x i var n (λ v. any (bytes_eq v) (s ∷ strings)) b

  module _ (path_match : Bytes → Bytes → Bool) where
    glob_contains :
        (var : Bytes) (is_not : Bool) (value : Bytes) (b : Bitmap)
        → IsName var
        → evaluate_glob p r path_match d (record { var = var; is_not = is_not; value = value })
          ≡ ok b
        → contains b i
          ≡ passes
              (λ v. if is_not then not (path_match value v) else path_match value v)
              (a.strings i var)
    unfolding evaluate_glob matching_string_values_glob matching_string_values_not_glob
    glob_contains var true value b n =
        contains-string_scan p r d a x i var n (λ v. not (path_match value v)) b
    glob_contains var false value b n =
        contains-string_scan p r d a x i var n (λ v. path_match value v) b

    -- In a database that indexes the attributes `a`, the bitmap of a readable term holds an
    -- identifier exactly if its attributes satisfy the term.
    pub evaluate_term-satisfies :
        (t : AstTerm) (b : Bitmap)
        → IsReadable t
        → evaluate_term p r path_match d t ≡ ok b
        → contains b i ≡ satisfies path_match a i t
    unfolding evaluate_term satisfies
    evaluate_term-satisfies (assign e) b n = equality_contains e.var e.is_not e.value b n.0 n.1
    evaluate_term-satisfies (inclusion e) b n =
        inclusion_contains e.var e.is_not e.values.strings e.values.numbers b n
    evaluate_term-satisfies (less_than e) b n = less_than-contains e b n
    evaluate_term-satisfies (less_or_equal_than e) b n = less_or_equal_than-contains e b n
    evaluate_term-satisfies (greater_than e) b n = greater_than-contains e b n
    evaluate_term-satisfies (greater_or_equal_than e) b n = greater_or_equal_than-contains e b n
    evaluate_term-satisfies (glob e) b n = glob_contains e.var e.is_not e.value b n
