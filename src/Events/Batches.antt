-- ===== src/Events/Batches.antt =====
-- The batches that the iterator yields, each committed before the next.
use pebble_bitmap_store_note.Prelude.{
  ℕ, ◌≡◌, ◌<◌, ◌≤◌, refl, ap, ◌∙◌, le→leb, none, some, List, [], ◌∷◌, ◌++◌, All, Error, Result, ok,
  err,
}
use pebble_bitmap_store_note.Cache.{new_bitmap_cache}
use pebble_bitmap_store_note.Events.{Block, BatchOrError}
use pebble_bitmap_store_note.Events.Operations.{Environment, Db}
use pebble_bitmap_store_note.Events.Blocks.{last_of, process_batch, follow_events}
use pebble_bitmap_store_note.Events.Tracks.{Runs}
use pebble_bitmap_store_note.Events.Contents.{Contents, Blocks, no_block, known_block}
use pebble_bitmap_store_note.Events.Steps.{main_loop-Blocks}
use pebble_bitmap_store_note.Events.Committed.{Commits, Committed, end-Committed}

module _ (env : Environment) (runs : Runs env) where
  open env use {pebble, roaring}

  -- The batches, with the last block before and after.
  pub data Batches : List BatchOrError → ℕ → Contents → ℕ → Contents → Type 0 where
    no_batch : {last : ℕ} {s : Contents} → Batches [] last s last s
    next_batch :
        {batch : BatchOrError} {rest : List BatchOrError} {last last' : ℕ} {s s1 s2 : Contents}
        (b : Block)
        → batch.error ≡ none
        → last_of batch.blocks ≡ ok b
        → b.number < 18446744073709551616
        → Blocks env runs last batch.blocks s s1
        → Batches rest b.number s1 last' s2
        → Batches (batch ∷ rest) last s last' s2

  module _ (commit : Db env → Result (Db env)) (commits : Commits env runs commit) where
    -- While the packages serve every call, a batch whose operations have steps from the contents is
    -- processed and committed: the database then holds the contents after the last block, its
    -- index is that of their attributes, and its last block is the batch's.
    pub process_batch-Blocks :
        (blocks : List Block) (b : Block) (last : ℕ) (s s' : Contents) (db : Db env)
        → Committed env runs db s last
        → last_of blocks ≡ ok b
        → b.number < 18446744073709551616
        → Blocks env runs last blocks s s'
        → (db' : Db env) × (process_batch env commit blocks db s.next ≡ (s'.next, ok db'))
          × Committed env runs db' s' b.number
    unfolding process_batch
    process_batch-Blocks blocks b last s s' db (t, _, known) is small steps =
        let (d1, c1, e, t1) =
          main_loop-Blocks env runs last blocks s s' db (new_bitmap_cache pebble roaring) t steps in
        let (d2, d3, d4, e2, e3, e4, committed) =
          end-Committed env runs commit s' d1 c1 b.number commits t1 small in
        (d4, rw (is, known, e, e2, e3, e4) refl, committed)

    known-Blocks :
        (last : ℕ) (blocks : List Block) (s : Contents)
        → All (λ (b : Block). b.number ≤ last) blocks
        → Blocks env runs last blocks s s
    known-Blocks last [] s h = no_block
    known-Blocks last (b ∷ rest) s h =
        known_block (le→leb b.number last h.0) (known-Blocks last rest s h.1)

    -- Processing a batch again whose blocks the database has changes neither the entities nor the
    -- index, while the packages serve every call; the last block is set back to the batch's.
    pub process_batch-replay :
        (blocks : List Block) (b : Block) (last : ℕ) (s : Contents) (db : Db env)
        → Committed env runs db s last
        → last_of blocks ≡ ok b
        → b.number < 18446744073709551616
        → All (λ (x : Block). x.number ≤ last) blocks
        → (db' : Db env) × (process_batch env commit blocks db s.next ≡ (s.next, ok db'))
          × Committed env runs db' s b.number
    process_batch-replay blocks b last s db t is small known =
        process_batch-Blocks blocks b last s s db t is small (known-Blocks last blocks s known)

    follow_events-next :
        (batch : BatchOrError) (rest : List BatchOrError) (n n' : ℕ) (db db' : Db env)
        → batch.error ≡ none
        → process_batch env commit batch.blocks db n ≡ (n', ok db')
        → follow_events env commit (batch ∷ rest) n db ≡ follow_events env commit rest n' db'
    unfolding follow_events
    follow_events-next batch rest n n' db db' no_error e = rw no_error (
        ap
          (λ (x : ℕ × Result (Db env)). elim x.1 as (λ _. ℕ × Db env × Result (Unit {0})) [
            | err failure ↦ (x.0, db, err failure)
            | ok db'' ↦ follow_events env commit rest x.0 db''
          ])
          e)

    -- While the packages serve every call, batches whose operations have steps from the contents
    -- are all processed: the database then holds the contents after the last batch, its index is
    -- that of their attributes, and its last block is the last batch's.
    pub follow_events-Batches :
        (batches : List BatchOrError) (last last' : ℕ) (s s' : Contents) (db : Db env)
        → Committed env runs db s last
        → Batches batches last s last' s'
        → (db' : Db env) × (follow_events env commit batches s.next db ≡ (s'.next, db', ok tt))
          × Committed env runs db' s' last'
    unfolding follow_events
    follow_events-Batches batches last last' s s' db t no_batch = (db, refl, t)
    follow_events-Batches batches last last' s s' db t
          (next_batch {batch = batch} {rest = rest} {s1 = s1} b no_error is small steps more) =
        let (db1, e, t1) = process_batch-Blocks batch.blocks b last s s1 db t is small steps in
        let (db', e', t') = follow_events-Batches rest b.number last' s1 s' db1 t1 more in
        (db', follow_events-next batch rest s.next s1.next db db1 no_error e ∙ e', t')

    -- While the packages serve every call, an error of the iterator ends the processing with that
    -- error, and the database holds what the batches before it have committed.
    pub follow_events-error :
        (batches : List BatchOrError) (bad : BatchOrError) (rest : List BatchOrError) (e : Error)
        (last last' : ℕ) (s s' : Contents) (db : Db env)
        → Committed env runs db s last
        → Batches batches last s last' s'
        → bad.error ≡ some e
        → (db' : Db env) × (follow_events env commit (batches ++ (bad ∷ rest)) s.next db
            ≡ (s'.next, db', err e))
          × Committed env runs db' s' last'
    unfolding follow_events
    follow_events-error batches bad rest e last last' s s' db t no_batch fails =
        (db, rw fails refl, t)
    follow_events-error batches bad rest e last last' s s' db t
          (next_batch {batch = batch} {rest = good} {s1 = s1} b no_error is small steps more)
          fails =
        let (db1, e1, t1) = process_batch-Blocks batch.blocks b last s s1 db t is small steps in
        let (db', e', t') =
          follow_events-error good bad rest e b.number last' s1 s' db1 t1 more fails in
        (
          db',
          follow_events-next batch (good ++ (bad ∷ rest)) s.next s1.next db db1 no_error e1 ∙ e',
          t',
        )
