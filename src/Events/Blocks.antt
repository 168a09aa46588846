-- ===== src/Events/Blocks.antt =====
-- pebblestore/follow_events.go: the blocks of a batch, and the batches that the iterator yields.
-- An update is known by its position in its block, as the code knows it by its pointer.
use pebble_bitmap_store_note.Prelude.{
  ℕ, suc, ◌==◌, leb, true, false, none, some, List, [], ◌∷◌, ◌++◌, Bytes, Result, ok, err, panic,
  if◌then◌else◌,
}
use pebble_bitmap_store_note.Maps.{Entries, get_entry, set_entry}
use pebble_bitmap_store_note.Store.{get_last_block, upsert_last_block}
use pebble_bitmap_store_note.Cache.{new_bitmap_cache, flush}
use pebble_bitmap_store_note.Events.{Operation, Block, BatchOrError}
use pebble_bitmap_store_note.Events.Exec.{Exec, ◌>>=◌, call, done}
use pebble_bitmap_store_note.Events.Operations.{
  Environment, Db, Cache, apply_create, apply_update, apply_rest,
}

-- `m[k]` of a map of slices
abbrev pub slice_at : Entries (List ℕ) → Bytes → List ℕ
slice_at m k = elim (get_entry m k) [ none ↦ [] | some l ↦ l ]

-- The loop that makes `updatesMap`, from the operation at a position on.
unfoldable pub updates_map : ℕ → List Operation → Entries (List ℕ) → Entries (List ℕ)
updates_map position [] m = m
updates_map position (operation ∷ rest) m = elim operation.update [
  | none ↦ updates_map (suc position) rest m
  | some u ↦
      updates_map (suc position) rest (set_entry m u.key (slice_at m u.key ++ (position ∷ [])))
]

-- `updates[len(updates)-1]`
unfoldable pub last_of : {A : Type 0} → List A → Result A
last_of [] = err panic
last_of (x ∷ []) = ok x
last_of (x ∷ y ∷ rest) = last_of (y ∷ rest)

module _ (env : Environment) where
  -- The switch on one operation.
  unfoldable pub apply_operation :
      ℕ → Entries (List ℕ) → ℕ → Operation → Db env → Cache env → Exec (Db env × Cache env)
  unfolding apply_create apply_update apply_rest last_of
  apply_operation number updates position operation batch cache = elim operation.create [
    | some create ↦ apply_create env number operation.tx_index operation.op_index create batch cache
    | none ↦ elim operation.update [
      | some update ↦ do
        last_update ← call (last_of (slice_at updates update.key))
        elim (position == last_update) [
          | true ↦ apply_update env number update batch cache
          | false ↦ done (batch, cache)
        ]
      | none ↦ apply_rest env operation batch cache
    ]
  ]

  unfoldable pub operation_loop :
      ℕ → Entries (List ℕ) → ℕ → List Operation → Db env → Cache env → Exec (Db env × Cache env)
  unfolding apply_operation
  operation_loop number updates position [] batch cache = done (batch, cache)
  operation_loop number updates position (operation ∷ rest) batch cache = do
    (batch', cache') ← apply_operation number updates position operation batch cache
    operation_loop number updates (suc position) rest batch' cache'

  -- Blocks that the database has are skipped.
  unfoldable pub main_loop : ℕ → List Block → Db env → Cache env → Exec (Db env × Cache env)
  unfolding operation_loop updates_map
  main_loop last_block_from_db [] batch cache = done (batch, cache)
  main_loop last_block_from_db (block ∷ rest) batch cache = do
    (batch', cache') ←
        if leb block.number last_block_from_db
        then done (batch, cache)
        else operation_loop block.number (updates_map 0 block.operations []) 0 block.operations
            batch cache
    main_loop last_block_from_db rest batch' cache'

  -- The batch, an indexed batch over the database; `commit` makes the database of it.
  unfoldable pub process_batch : (Db env → Result (Db env)) → List Block → Db env → Exec (Db env)
  unfolding main_loop last_of
  process_batch commit blocks db = do
    last_block ← call (last_of blocks)
    last_block_from_db ← call (get_last_block env.pebble db)
    (batch, cache) ←
        main_loop last_block_from_db blocks db (new_bitmap_cache env.pebble env.roaring)
    batch ← call (upsert_last_block env.pebble batch last_block.number)
    batch ← call (flush env.pebble env.roaring cache batch)
    call (commit batch)

  -- The counter, the database and how the call ended: a batch that fails leaves the database.
  unfoldable pub follow_events :
      (Db env → Result (Db env)) → List BatchOrError → ℕ → Db env → ℕ × Db env × Result (Unit {0})
  unfolding process_batch
  follow_events commit [] next_id_val db = (next_id_val, db, ok tt)
  follow_events commit (batch ∷ rest) next_id_val db = elim batch.error [
    | some e ↦ (next_id_val, db, err e)
    | none ↦
        let (next_id_val', processed) = process_batch commit batch.blocks db next_id_val in
        elim processed [
          | err e ↦ (next_id_val', db, err e)
          | ok db' ↦ follow_events commit rest next_id_val' db'
        ]
  ]
