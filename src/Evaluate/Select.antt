-- ===== src/Evaluate/Select.antt =====
-- From the query's syntax tree to the selected entities.
use pebble_bitmap_store_note.Prelude.{
  ℕ, ◌≡◌, sym, ◌∙◌, subst, Bool, true, Option, some, List, All, Bytes, ok, eq_of_some, ok-injective,
}
use pebble_bitmap_store_note.Packages.PebbleDb.{Pebble}
use pebble_bitmap_store_note.Packages.Roaring64.{Roaring}
use pebble_bitmap_store_note.Query.Language.{Expression, filtered}
use pebble_bitmap_store_note.Query.Ast.{AstTerm, AstOr}
use pebble_bitmap_store_note.Query.Meaning.{Leaves}
use pebble_bitmap_store_note.Query.Normalize.{normalize}
use pebble_bitmap_store_note.Query.Normalize.Total.{TypedLeaf, IsDnf}
use pebble_bitmap_store_note.Query.Normalize.Parse.{normalize-total}
use pebble_bitmap_store_note.Index.Attributes.{Attributes, Indexes}
use pebble_bitmap_store_note.Evaluate.{evaluate_term, evaluate_ast}
use pebble_bitmap_store_note.Evaluate.Satisfies.{satisfies}
use pebble_bitmap_store_note.Evaluate.Asks.{asks, IsPlain}
use pebble_bitmap_store_note.Evaluate.Asked.{normalize-asks}
use pebble_bitmap_store_note.Evaluate.Terms.{IsReadable, evaluate_term-satisfies}
use pebble_bitmap_store_note.Evaluate.Total.{term-Ok, expr-Some}
use pebble_bitmap_store_note.Evaluate.Total.Scans.{Serves}
use pebble_bitmap_store_note.Evaluate.Queries.{Decides, evaluate_expr-holds}

module _ (p : Pebble) (r : Roaring) (to_lower : Bytes → Bytes) (path_match : Bytes → Bytes → Bool)
    (sort_descending : List ℕ → List ℕ) (d : p.Db) (a : Attributes) (x : Indexes p r d a) where
  -- The bitmap of a well-typed query, normalised to readable terms, over a database that indexes
  -- the attributes `a`, is not nil and holds an identifier exactly if it has what the query asks.
  evaluate-asks :
      (e : Expression) (o : AstOr) (b : Option r.Bitmap) (i : ℕ)
      → Leaves TypedLeaf e
      → IsPlain true e
      → normalize to_lower (filtered e) ≡ ok (some o)
      → All (All IsReadable) o
      → evaluate_ast p r path_match sort_descending d (some o) ≡ ok b
      → Decides p r path_match d a x i b (asks to_lower path_match a i true e)
  unfolding evaluate_ast
  evaluate-asks e o b i typed plain h n got =
      let (o', h', dnf) = normalize-total to_lower e typed in
      let same : o' ≡ o = eq_of_some (ok-injective (sym h' ∙ h)) in
      subst (Decides p r path_match d a x i b)
        (normalize-asks to_lower path_match a i e (some o) typed plain h)
        (evaluate_expr-holds p r path_match d a x i o b (subst IsDnf same dnf) n got)

  -- While the database serves every read, evaluating a readable term returns a bitmap that holds
  -- an identifier exactly if it has the attribute and its value passes the comparison, membership
  -- test or glob.
  pub evaluate_term-selects :
      Serves p r d
      → (t : AstTerm) → IsReadable t
      → (b : r.Bitmap) × (evaluate_term p r path_match d t ≡ ok b)
        × ((i : ℕ) → r.contains b i ≡ satisfies path_match a i t)
  evaluate_term-selects serves t n =
      let (b, got) = term-Ok p r d a x serves path_match t n in
      (b, got, λ i. evaluate_term-satisfies p r d a x i path_match t b n got)

  -- Over a database that indexes the attributes of entities, and while it serves every read,
  -- evaluating a well-typed query whose normal form has readable terms and whose lists on $key,
  -- $owner and $creator are of strings and, negations counted, have no `not`, returns a bitmap,
  -- not nil, that holds an identifier exactly if it has what the query asks. A comparison and its
  -- negation both ask for the attribute; literals for those three names count in lower case.
  pub evaluate_ast-selects :
      Serves p r d
      → (e : Expression) (o : AstOr) → Leaves TypedLeaf e
      → IsPlain true e
      → normalize to_lower (filtered e) ≡ ok (some o)
      → All (All IsReadable) o
      → (b : r.Bitmap) × (evaluate_ast p r path_match sort_descending d (some o) ≡ ok (some b))
        × ((i : ℕ) → r.contains b i ≡ asks to_lower path_match a i true e)
  unfolding evaluate_ast
  evaluate_ast-selects serves e o typed plain h n =
      let (o', h', dnf) = normalize-total to_lower e typed in
      let same : o' ≡ o = eq_of_some (ok-injective (sym h' ∙ h)) in
      let (b, got) = expr-Some p r d a x serves path_match o (subst IsDnf same dnf) n in
      (b, got, λ i. evaluate-asks e o (some b) i typed plain h n got)
