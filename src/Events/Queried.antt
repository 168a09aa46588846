-- ===== src/Events/Queried.antt =====
-- A query on the database after the batches of the iterator.
use pebble_bitmap_store_note.Prelude.{ℕ, ◌≡◌, true, some, List, All, Bytes, Bool, Result, ok}
use pebble_bitmap_store_note.Query.Language.{Expression, filtered}
use pebble_bitmap_store_note.Query.Ast.{AstOr}
use pebble_bitmap_store_note.Query.Meaning.{Leaves}
use pebble_bitmap_store_note.Query.Normalize.{normalize}
use pebble_bitmap_store_note.Query.Normalize.Total.{TypedLeaf}
use pebble_bitmap_store_note.Evaluate.{evaluate_ast}
use pebble_bitmap_store_note.Evaluate.Asks.{asks, IsPlain}
use pebble_bitmap_store_note.Evaluate.Terms.{IsReadable}
use pebble_bitmap_store_note.Evaluate.Select.{evaluate_ast-selects}
use pebble_bitmap_store_note.Events.{BatchOrError}
use pebble_bitmap_store_note.Events.Operations.{Environment, Db}
use pebble_bitmap_store_note.Events.Blocks.{follow_events}
use pebble_bitmap_store_note.Events.Tracks.{Runs, Readable-Serves}
use pebble_bitmap_store_note.Events.Contents.{Contents}
use pebble_bitmap_store_note.Events.Committed.{Commits, Committed}
use pebble_bitmap_store_note.Events.Batches.{Batches, follow_events-Batches}

module _ (env : Environment) (runs : Runs env) (path_match : Bytes → Bytes → Bool)
    (sort_descending : List ℕ → List ℕ) (commit : Db env → Result (Db env))
    (commits : Commits env runs commit) where
  open env use {pebble, roaring, to_lower}

  -- While the packages serve every call, after batches whose operations have steps from the
  -- contents, a well-typed query whose normal form has readable terms and whose lists on $key,
  -- $owner and $creator are of strings and, negations counted, have no `not`, gets a bitmap that
  -- holds an identifier exactly if the attributes that the batches have given it have what the
  -- query asks. A comparison and its negation both ask for the attribute; literals for those three
  -- names count in lower case.
  pub follow_events-evaluate_ast :
      (batches : List BatchOrError) (last last' : ℕ) (s s' : Contents) (db : Db env)
      (e : Expression) (o : AstOr)
      → Committed env runs db s last
      → Batches env runs batches last s last' s'
      → Leaves TypedLeaf e
      → IsPlain true e
      → normalize to_lower (filtered e) ≡ ok (some o)
      → All (All IsReadable) o
      → (db' : Db env) × (follow_events env commit batches s.next db ≡ (s'.next, db', ok tt))
        × (b : roaring.Bitmap) × (evaluate_ast pebble roaring path_match sort_descending db'
              (some o)
            ≡ ok (some b))
        × ((i : ℕ) → roaring.contains b i ≡ asks to_lower path_match s'.attributes i true e)
  follow_events-evaluate_ast batches last last' s s' db e o t steps typed plain h readable =
      let (db', followed, (holding, indexes, _)) =
        follow_events-Batches env runs commit commits batches last last' s s' db t steps in
      let (b, got, selects) =
        evaluate_ast-selects pebble roaring to_lower path_match sort_descending db' s'.attributes
          indexes (Readable-Serves env runs db' holding.readable) e o typed plain h readable in
      (db', followed, b, got, selects)
