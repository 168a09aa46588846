-- ===== src/Events/Tests/Batches.antt =====
-- A block that creates and updates the sample entity.
use pebble_bitmap_store_note.Prelude.{
  ℕ, ◌≡◌, refl, sym, ap, ◌∙◌, inl, true, none, some, List, [], ◌∷◌, bytes_eq, fault, Result, ok,
  err, arith,
}
use pebble_bitmap_store_note.Packages.InMemory.{Table, table_db, list_bitmaps, lookup}
use pebble_bitmap_store_note.Encoding.Keys.{
  prefix_string_bitmap, prefix_numeric_bitmap, entity_count_key, last_block_key,
}
use pebble_bitmap_store_note.Index.Layouts.{IsName}
use pebble_bitmap_store_note.Maps.{get_entry, set_entry}
use pebble_bitmap_store_note.Store.{get_last_block}
use pebble_bitmap_store_note.Payloads.Fresh.{fresh_db, none≢some}
use pebble_bitmap_store_note.Events.{Operation, Block, BatchOrError}
use pebble_bitmap_store_note.Events.Operations.{Cache}
use pebble_bitmap_store_note.Events.LastUpdate.{last_update, or_panic, updates_map-last_update}
use pebble_bitmap_store_note.Events.Blocks.{
  slice_at, updates_map, last_of, operation_loop, process_batch, follow_events,
}
use pebble_bitmap_store_note.Events.Flushed.{prefix_cons}
use pebble_bitmap_store_note.Events.Contents.{
  Contents, Holding, with_entity, with_fields, creates, updates_last, Steps, finished, next_step,
  Blocks, no_block, new_block,
}
use pebble_bitmap_store_note.Events.Steps.{operation_loop-Steps}
use pebble_bitmap_store_note.Events.Committed.{Commits, Committed}
use pebble_bitmap_store_note.Events.Batches.{
  Batches, no_batch, next_batch, process_batch-Blocks, process_batch-replay, follow_events-Batches,
  follow_events-error,
}
use pebble_bitmap_store_note.Events.Queried.{follow_events-evaluate_ast}
use pebble_bitmap_store_note.Events.Sample.{
  sample_env, sample_env-Runs, sample_key, sample_create, sample_update,
}
use pebble_bitmap_store_note.Events.Sample.Entities.{
  no_attributes, no_row, empty_cache, fresh-Tracks, created, created_strings, created_numbers,
  strings_created, numbers_created, created-IsEntity, updated, updated_strings, updated_numbers,
  strings_updated, numbers_updated, updated-IsEntity, no_string_bitmap, no_numeric_bitmap,
}
use pebble_bitmap_store_note.Index.Bitmaps.Stored.{stored, decoded}
use pebble_bitmap_store_note.Query.Language.{
  number, Expression, expression, or_expression, or_end, and_expression, and_end, EqualExpr,
  filtered,
}
use pebble_bitmap_store_note.Query.Ast.{AstTerm}
use pebble_bitmap_store_note.Query.Depth.{depth}
use pebble_bitmap_store_note.Query.Meaning.{Leaves}
use pebble_bitmap_store_note.Query.Normalize.{
  is_hex_attribute, normalize, normalize_expression, normalize_or, normalize_equal_expr, cross,
  distribute,
}
use pebble_bitmap_store_note.Evaluate.Asks.{asks, IsPlain}
use pebble_bitmap_store_note.Query.Normalize.Total.{TypedLeaf}
use pebble_bitmap_store_note.Evaluate.{evaluate_ast}
use pebble_bitmap_store_note.Events.Attributes.{expiration_name}
use pebble_bitmap_store_note.Events.Sample.{lower}

abbrev no_operation : ℕ → Operation
no_operation index = record {
  tx_index = 0;
  op_index = index;
  create = none;
  update = none;
  delete = none;
  expire = none;
  extend_btl = none;
  change_owner = none;
}

abbrev create_operation : Operation
create_operation = record (no_operation 0) { create = some sample_create }

abbrev update_operation : Operation
update_operation = record (no_operation 0) { update = some sample_update }

abbrev first_block : Block
first_block = record { number = 5; operations = create_operation ∷ [] }

abbrev second_block : Block
second_block = record { number = 7; operations = update_operation ∷ [] }

abbrev nothing : Contents
nothing = record { next = 1; keys = []; rows = no_row; attributes = no_attributes }

abbrev after_create : Contents
after_create = with_entity sample_env nothing sample_key created

abbrev after_update : Contents
after_update = with_fields sample_env after_create sample_key updated

create-Steps :
    Steps sample_env sample_env-Runs 5
      (updates_map 0 first_block.operations [])
      0
      first_block.operations
      nothing
      after_create
create-Steps =
    next_step
      (creates sample_create created_strings created_numbers refl strings_created numbers_created
        created-IsEntity (omega arith) (λ m. absurd m))
      finished

update-Steps :
    Steps sample_env sample_env-Runs 7
      (updates_map 0 second_block.operations [])
      0
      second_block.operations
      after_create
      after_update
unfolding updates_map get_entry set_entry bytes_eq last_of
update-Steps =
    next_step
      (updates_last sample_update updated_strings updated_numbers refl refl refl (inl refl)
        strings_updated numbers_updated updated-IsEntity)
      finished

abbrev both_blocks : List Block
both_blocks = first_block ∷ second_block ∷ []

both_blocks-Blocks : Blocks sample_env sample_env-Runs 0 both_blocks nothing after_update
both_blocks-Blocks = new_block refl create-Steps (new_block refl update-Steps no_block)

fresh-Committed : Committed sample_env sample_env-Runs fresh_db nothing 0
unfolding stored get_last_block lookup last_block_key entity_count_key bytes_eq
fresh-Committed = (
  fresh-Tracks,
  record {
    string_fits = λ i n v h. cc;
    string_stored =
        λ i n v fits. ap (λ o. decoded table_db list_bitmaps o i) (no_string_bitmap n v);
    string_keys = λ k s e h.
        let (rest, at) = prefix_cons prefix_string_bitmap k h in
        absurd (none≢some (ap (lookup fresh_db) (sym at) ∙ e));
    number_fits = λ i n v h. cc;
    number_stored =
        λ i n v fits. ap (λ o. decoded table_db list_bitmaps o i) (no_numeric_bitmap n v);
    number_keys = λ k s e h.
        let (rest, at) = prefix_cons prefix_numeric_bitmap k h in
        absurd (none≢some (ap (lookup fresh_db) (sym at) ∙ e));
  },
  refl,
)

abbrev commit : Table → Result Table
commit = ok

commit-Commits : Commits sample_env sample_env-Runs commit
commit-Commits d = (d, refl, λ k. refl)

operation_loop-Steps_example :
    (d : Table) × (c : Cache sample_env) × (operation_loop sample_env 5
        (updates_map 0 first_block.operations [])
        0
        first_block.operations
        fresh_db
        empty_cache
        1
      ≡ (2, ok (d, c)))
    × Holding sample_env sample_env-Runs after_create d c
operation_loop-Steps_example =
    operation_loop-Steps sample_env sample_env-Runs 5 (updates_map 0 first_block.operations []) 0
      first_block.operations nothing after_create fresh_db empty_cache fresh-Tracks create-Steps

process_batch-Blocks_example :
    (db' : Table) × (process_batch sample_env commit both_blocks fresh_db 1 ≡ (2, ok db'))
    × Committed sample_env sample_env-Runs db' after_update 7
unfolding last_of
process_batch-Blocks_example =
    process_batch-Blocks sample_env sample_env-Runs commit commit-Commits both_blocks second_block 0
      nothing after_update fresh_db fresh-Committed refl (omega arith) both_blocks-Blocks

-- The store after both blocks.
after_both :
    (db' : Table) × (process_batch sample_env commit both_blocks fresh_db 1 ≡ (2, ok db'))
    × Committed sample_env sample_env-Runs db' after_update 7
unfolding last_of
after_both =
    process_batch-Blocks sample_env sample_env-Runs commit commit-Commits both_blocks second_block 0
      nothing after_update fresh_db fresh-Committed refl (omega arith) both_blocks-Blocks

process_batch-replay_example :
    (db' : Table) × (process_batch sample_env commit (first_block ∷ []) after_both.0 2
      ≡ (2, ok db'))
    × Committed sample_env sample_env-Runs db' after_update 5
unfolding last_of
process_batch-replay_example =
    process_batch-replay sample_env sample_env-Runs commit commit-Commits (first_block ∷ [])
      first_block 7 after_update after_both.0 after_both.2 refl (omega arith) (omega arith, tt)

abbrev good_batch : BatchOrError
good_batch = record { blocks = both_blocks; error = none }

abbrev bad_batch : BatchOrError
bad_batch = record { blocks = []; error = some (fault 1) }

good_batch-Batches : Batches sample_env sample_env-Runs (good_batch ∷ []) 0 nothing 7 after_update
unfolding last_of
good_batch-Batches = next_batch second_block refl refl (omega arith) both_blocks-Blocks no_batch

follow_events-Batches_example :
    (db' : Table) × (follow_events sample_env commit (good_batch ∷ []) 1 fresh_db ≡ (2, db', ok tt))
    × Committed sample_env sample_env-Runs db' after_update 7
follow_events-Batches_example =
    follow_events-Batches sample_env sample_env-Runs commit commit-Commits (good_batch ∷ []) 0 7
      nothing after_update fresh_db fresh-Committed good_batch-Batches

follow_events-error_example :
    (db' : Table) × (follow_events sample_env commit (good_batch ∷ bad_batch ∷ []) 1 fresh_db
      ≡ (2, db', err (fault 1)))
    × Committed sample_env sample_env-Runs db' after_update 7
follow_events-error_example =
    follow_events-error sample_env sample_env-Runs commit commit-Commits (good_batch ∷ []) bad_batch
      [] (fault 1) 0 7 nothing after_update fresh_db fresh-Committed good_batch-Batches refl

-- $expiration >= 20
abbrev late : AstTerm
late = AstTerm.greater_or_equal_than (record { var = expiration_name; value = number 20 })

abbrev late_query : Expression
late_query = expression (
    or_expression
      (and_expression
        (EqualExpr.greater_or_equal_than (record { var = expiration_name; value = number 20 }))
        and_end)
      or_end)

late_query-typed : Leaves TypedLeaf late_query
unfolding Leaves is_hex_attribute
late_query-typed = (((refl, tt)), tt)

normalize-late_query : normalize lower (filtered late_query) ≡ ok (some ((late ∷ []) ∷ []))
unfolding normalize normalize_expression normalize_or normalize_equal_expr depth is_hex_attribute
    cross distribute
normalize-late_query = refl

late_query-IsPlain : IsPlain true late_query
unfolding IsPlain
late_query-IsPlain = ((tt, tt), tt)

late-IsName : IsName expiration_name
late-IsName = record { short = omega arith; utf8 = omega arith }

follow_events-evaluate_ast_example :
    (db' : Table) × (follow_events sample_env commit (good_batch ∷ []) 1 fresh_db ≡ (2, db', ok tt))
    × (b : List ℕ) × (evaluate_ast table_db list_bitmaps bytes_eq
          (λ ids. ids)
          db'
          (some ((late ∷ []) ∷ []))
        ≡ ok (some b))
    × ((i : ℕ)
        → list_bitmaps.contains b i ≡ asks lower bytes_eq after_update.attributes i true late_query)
follow_events-evaluate_ast_example =
    follow_events-evaluate_ast sample_env sample_env-Runs bytes_eq (λ ids. ids) commit
      commit-Commits (good_batch ∷ []) 0 7 nothing after_update fresh_db late_query
      ((late ∷ []) ∷ []) fresh-Committed good_batch-Batches late_query-typed late_query-IsPlain
      normalize-late_query ((late-IsName, tt), tt)

updates_map-last_update_example :
    last_of (
      slice_at
        (updates_map 0 (update_operation ∷ create_operation ∷ update_operation ∷ []) [])
        sample_key)
    ≡ or_panic
        (last_update 0 (update_operation ∷ create_operation ∷ update_operation ∷ []) sample_key)
updates_map-last_update_example =
    updates_map-last_update (update_operation ∷ create_operation ∷ update_operation ∷ []) sample_key

-- The third operation is the last update.
third_is_last :
    last_update 0 (update_operation ∷ create_operation ∷ update_operation ∷ []) sample_key ≡ some 2
unfolding last_update bytes_eq
third_is_last = refl
