-- ===== src/Evaluate/Total.antt =====
-- The steps of the evaluation, while the database serves every read.
pub mod Scans
use pebble_bitmap_store_note.Prelude.{
  ℕ, ◌≡◌, refl, true, false, Bool, Option, some, List, [], ◌∷◌, Bytes, ok, All, Ok, arith, Result,
}
use pebble_bitmap_store_note.Packages.PebbleDb.{Pebble}
use pebble_bitmap_store_note.Packages.Roaring64.{Roaring}
use pebble_bitmap_store_note.Query.Language.{string, number, Value}
use pebble_bitmap_store_note.Query.Ast.{
  AstTerm, AstAnd, AstOr, assign, inclusion, less_than, less_or_equal_than, greater_than,
  greater_or_equal_than, glob,
}
use pebble_bitmap_store_note.Query.Normalize.Total.{IsDnf, IsNonempty}
use pebble_bitmap_store_note.Index.Attributes.{Attributes, Indexes}
use pebble_bitmap_store_note.Index.Layouts.{IsName}
use pebble_bitmap_store_note.Index.Values.{
  matching_string_values_not_equal, matching_string_values_less_than,
  matching_string_values_greater_than, matching_string_values_less_or_equal_than,
  matching_string_values_greater_or_equal_than, matching_string_values_glob,
  matching_string_values_not_glob, matching_string_values_inclusion,
  matching_string_values_not_inclusion, matching_numeric_values_not_equal,
  matching_numeric_values_less_than, matching_numeric_values_greater_than,
  matching_numeric_values_less_or_equal_than, matching_numeric_values_greater_or_equal_than,
  matching_numeric_values_inclusion, matching_numeric_values_not_inclusion,
}
use pebble_bitmap_store_note.Evaluate.{
  evaluate_less_than, evaluate_less_or_equal_than, evaluate_greater_than,
  evaluate_greater_or_equal_than, evaluate_equality, evaluate_inclusion, evaluate_glob,
  evaluate_term, join, and_loop, evaluate_and, or_loop, evaluate_expr,
}
use pebble_bitmap_store_note.Evaluate.Terms.{IsReadable}
use Scans.{Serves, get_string-Ok, get_numeric-Ok, string_scan-Ok, numeric_scan-Ok}

module _ (p : Pebble) (r : Roaring) (d : p.Db) (a : Attributes) (x : Indexes p r d a)
    (serves : Serves p r d) (path_match : Bytes → Bytes → Bool) where
  open r use {Bitmap, and, or}

  -- The four comparisons.
  less_than-Ok :
      (var : Bytes) (v : Value)
      → IsName var
      → Ok (evaluate_less_than p r d (record { var = var; value = v }))
  unfolding evaluate_less_than matching_string_values_less_than matching_numeric_values_less_than
  less_than-Ok var (string s) n = string_scan-Ok p r d a x serves var n _
  less_than-Ok var (number m) n = numeric_scan-Ok p r d a x serves var n _

  less_or_equal_than-Ok :
      (var : Bytes) (v : Value)
      → IsName var
      → Ok (evaluate_less_or_equal_than p r d (record { var = var; value = v }))
  unfolding evaluate_less_or_equal_than matching_string_values_less_or_equal_than
      matching_numeric_values_less_or_equal_than
  less_or_equal_than-Ok var (string s) n = string_scan-Ok p r d a x serves var n _
  less_or_equal_than-Ok var (number m) n = numeric_scan-Ok p r d a x serves var n _

  greater_than-Ok :
      (var : Bytes) (v : Value)
      → IsName var
      → Ok (evaluate_greater_than p r d (record { var = var; value = v }))
  unfolding evaluate_greater_than matching_string_values_greater_than
      matching_numeric_values_greater_than
  greater_than-Ok var (string s) n = string_scan-Ok p r d a x serves var n _
  greater_than-Ok var (number m) n = numeric_scan-Ok p r d a x serves var n _

  greater_or_equal_than-Ok :
      (var : Bytes) (v : Value)
      → IsName var
      → Ok (evaluate_greater_or_equal_than p r d (record { var = var; value = v }))
  unfolding evaluate_greater_or_equal_than matching_string_values_greater_or_equal_than
      matching_numeric_values_greater_or_equal_than
  greater_or_equal_than-Ok var (string s) n = string_scan-Ok p r d a x serves var n _
  greater_or_equal_than-Ok var (number m) n = numeric_scan-Ok p r d a x serves var n _

  equality-Ok :
      (var : Bytes) (is_not : Bool) (v : Value)
      → IsName var
      → Ok (evaluate_equality p r d (record { var = var; is_not = is_not; value = v }))
  unfolding evaluate_equality matching_string_values_not_equal matching_numeric_values_not_equal
  equality-Ok var true (string s) n = string_scan-Ok p r d a x serves var n _
  equality-Ok var false (string s) n = get_string-Ok p r d serves var s
  equality-Ok var true (number m) n = numeric_scan-Ok p r d a x serves var n _
  equality-Ok var false (number m) n = get_numeric-Ok p r d serves var m

  inclusion-Ok :
      (var : Bytes) (is_not : Bool) (strings : List Bytes) (numbers : List ℕ)
      → IsName var
      → Ok (
          evaluate_inclusion p r d (record {
            var = var;
            is_not = is_not;
            values = record { strings = strings; numbers = numbers };
          }))
  unfolding evaluate_inclusion matching_string_values_inclusion matching_string_values_not_inclusion
      matching_numeric_values_inclusion matching_numeric_values_not_inclusion
  inclusion-Ok var true [] numbers n = numeric_scan-Ok p r d a x serves var n _
  inclusion-Ok var false [] numbers n = numeric_scan-Ok p r d a x serves var n _
  inclusion-Ok var true (s ∷ strings) numbers n = string_scan-Ok p r d a x serves var n _
  inclusion-Ok var false (s ∷ strings) numbers n = string_scan-Ok p r d a x serves var n _

  glob-Ok :
      (var : Bytes) (is_not : Bool) (value : Bytes)
      → IsName var
      → Ok (evaluate_glob p r path_match d (record { var = var; is_not = is_not; value = value }))
  unfolding evaluate_glob matching_string_values_glob matching_string_values_not_glob
  glob-Ok var true value n = string_scan-Ok p r d a x serves var n _
  glob-Ok var false value n = string_scan-Ok p r d a x serves var n _

  pub term-Ok : (t : AstTerm) → IsReadable t → Ok (evaluate_term p r path_match d t)
  unfolding evaluate_term
  term-Ok (assign e) n = equality-Ok e.var e.is_not e.value n.0
  term-Ok (inclusion e) n = inclusion-Ok e.var e.is_not e.values.strings e.values.numbers n
  term-Ok (less_than e) n = less_than-Ok e.var e.value n
  term-Ok (less_or_equal_than e) n = less_or_equal_than-Ok e.var e.value n
  term-Ok (greater_than e) n = greater_than-Ok e.var e.value n
  term-Ok (greater_or_equal_than e) n = greater_or_equal_than-Ok e.var e.value n
  term-Ok (glob e) n = glob-Ok e.var e.is_not e.value n

  -- A bitmap that is not nil.
  abbrev pub Some : Result (Option Bitmap) → Type 0
  Some m = (b : Bitmap) × (m ≡ ok (some b))

  and_loop-Some :
      (c : AstAnd) (tmp : Bitmap) → All IsReadable c → Some (and_loop p r path_match d (some tmp) c)
  unfolding and_loop
  and_loop-Some [] tmp n = (tmp, refl)
  and_loop-Some (term ∷ c) tmp n =
      let (bm, e) = term-Ok term n.0 in
      let (b, e') = and_loop-Some c (and tmp bm) n.1 in (b, rw e e')

  and-Some : (c : AstAnd) → IsNonempty c → All IsReadable c → Some (evaluate_and p r path_match d c)
  unfolding evaluate_and and_loop
  and-Some [] ne n = absurd (omega arith)
  and-Some (term ∷ c) ne n =
      let (bm, e) = term-Ok term n.0 in let (b, e') = and_loop-Some c bm n.1 in (b, rw e e')

  or_loop-Some :
      (o : AstOr) (tmp : Bitmap)
      → All IsNonempty o
      → All (All IsReadable) o
      → Some (or_loop p r path_match d (some tmp) o)
  unfolding or_loop
  or_loop-Some [] tmp ne n = (tmp, refl)
  or_loop-Some (c ∷ o) tmp ne n =
      let (bm, e) = and-Some c ne.0 n.0 in
      let (b, e') = or_loop-Some o (or tmp bm) ne.1 n.1 in (b, rw e e')

  pub expr-Some :
      (o : AstOr) → IsDnf o → All (All IsReadable) o → Some (evaluate_expr p r path_match d o)
  unfolding evaluate_expr or_loop join
  expr-Some [] dnf n = absurd (omega arith)
  expr-Some (c ∷ o) dnf n =
      let (bm, e) = and-Some c dnf.1.0 n.0 in
      let (b, e') = or_loop-Some o bm dnf.1.1 n.1 in (b, rw e e')
