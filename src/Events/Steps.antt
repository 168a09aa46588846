-- ===== src/Events/Steps.antt =====
-- The operations of a block and the blocks of a batch do to the batch and the cache what they do to
-- the contents.
use pebble_bitmap_store_note.Prelude.{
  ℕ, suc, ◌≡◌, ◌⊎◌, inl, inr, refl, Option, none, some, List, [], Bytes, ok, Result,
}
use pebble_bitmap_store_note.Maps.{Entries}
use pebble_bitmap_store_note.Events.{Operation, Block}
use pebble_bitmap_store_note.Events.Exec.{continue}
use pebble_bitmap_store_note.Events.Operations.{Environment, Db, Cache, apply_rest}
use pebble_bitmap_store_note.Events.Blocks.{updates_map, apply_operation, operation_loop, main_loop}
use pebble_bitmap_store_note.Events.Tracks.{Runs}
use pebble_bitmap_store_note.Events.Written.{not_equal, equal}
use pebble_bitmap_store_note.Events.Creates.{apply_create-Tracks}
use pebble_bitmap_store_note.Events.Updates.{apply_update-Tracks}
use pebble_bitmap_store_note.Events.Deletes.{apply_delete-Tracks}
use pebble_bitmap_store_note.Events.Moves.{apply_extend_btl-Tracks, apply_change_owner-Tracks}
use pebble_bitmap_store_note.Events.Contents.{
  Contents, Holding, Step, creates, updates_last, skips, removes, extends, changes_owner, Steps,
  finished, next_step, Blocks, no_block, known_block, new_block,
}

removed_from :
    (delete expire : Option Bytes) (key : Bytes)
    → (elim delete as (λ _. Option Bytes) [ some k ↦ some k | none ↦ expire ]) ≡ some key
    → (delete ≡ some key) ⊎ ((delete ≡ none) × (expire ≡ some key))
removed_from none expire key h = inr (refl, h)
removed_from (some k) expire key h = inl h

not_removed :
    (delete expire : Option Bytes)
    → (elim delete as (λ _. Option Bytes) [ some k ↦ some k | none ↦ expire ]) ≡ none
    → (delete ≡ none) × (expire ≡ none)
not_removed none expire h = (refl, h)
not_removed (some k) expire h = cc

module _ (env : Environment) (runs : Runs env) where
  -- The call ends with the contents `s` and its counter.
  abbrev pub Reaches : ℕ × Result (Db env × Cache env) → Contents → Type 0
  Reaches call s =
      (d : Db env) × (c : Cache env) × (call ≡ (s.next, ok (d, c))) × Holding env runs s d c

  -- While the packages serve every call, an operation that has a step from the contents succeeds,
  -- and the batch and the cache then hold the contents after the step.
  apply_operation-Step :
      (number : ℕ) (updates : Entries (List ℕ)) (position : ℕ) (o : Operation) (s s' : Contents)
      (d : Db env) (c : Cache env)
      → Holding env runs s d c
      → Step env runs number updates position o s s'
      → Reaches (apply_operation env number updates position o d c s.next) s'
  unfolding apply_operation apply_rest
  apply_operation-Step number updates position o s s' d c t
        (creates create strs nums is es en entity room new) =
      rw is (
        apply_create-Tracks env runs s.next s.keys s.rows d c s.attributes number o.tx_index
          o.op_index create strs nums t es en entity room new)
  apply_operation-Step number updates position o s s' d c t
        (updates_last update strs nums other is last there es en entity) =
      rw (other, is, last, continue, equal position)
        (apply_update-Tracks env runs s.next s.keys s.rows d c s.attributes number update strs nums
          t there es en entity)
  apply_operation-Step number updates position o s s' d c t (skips update last other is e differ) =
      rw (other, is, e, continue, not_equal position last differ) (d, c, refl, t)
  apply_operation-Step number updates position o s s' d c t (removes key other other' is there) =
      let done = apply_delete-Tracks env runs s.next s.keys s.rows d c s.attributes key t there in
      elim (removed_from o.delete o.expire key is) [
        | inl e ↦ rw (other, other', e) done
        | inr (e, e') ↦ rw (other, other', e, e') done
      ]
  apply_operation-Step number updates position o s s' d c t
        (extends extend other other' kept is there entity) =
      let (e, e') = not_removed o.delete o.expire kept in
      rw (other, other', e, e', is)
        (apply_extend_btl-Tracks env runs s.next s.keys s.rows d c s.attributes extend t there
          entity)
  apply_operation-Step number updates position o s s' d c t
        (changes_owner change other other' kept other'' is there entity) =
      let (e, e') = not_removed o.delete o.expire kept in
      rw (other, other', e, e', other'', is)
        (apply_change_owner-Tracks env runs s.next s.keys s.rows d c s.attributes change t there
          entity)

  -- While the packages serve every call, the operations of a block that have steps from the
  -- contents succeed one after the other, and the batch and the cache then hold the contents after
  -- the last.
  pub operation_loop-Steps :
      (number : ℕ) (updates : Entries (List ℕ)) (position : ℕ) (ops : List Operation)
      (s s' : Contents) (d : Db env) (c : Cache env)
      → Holding env runs s d c
      → Steps env runs number updates position ops s s'
      → Reaches (operation_loop env number updates position ops d c s.next) s'
  unfolding operation_loop
  operation_loop-Steps number updates position ops s s' d c t finished = (d, c, refl, t)
  operation_loop-Steps number updates position ops s s' d c t
        (next_step {o = o} {rest = rest} {s1 = s1} step steps) =
      let (d1, c1, e, t1) = apply_operation-Step number updates position o s s1 d c t step in
      rw e (operation_loop-Steps number updates (suc position) rest s1 s' d1 c1 t1 steps)

  -- While the packages serve every call, the blocks of a batch succeed one after the other, those
  -- up to the last block of the database change nothing, and the batch and the cache then hold the
  -- contents after the last.
  pub main_loop-Blocks :
      (last_block : ℕ) (blocks : List Block) (s s' : Contents) (d : Db env) (c : Cache env)
      → Holding env runs s d c
      → Blocks env runs last_block blocks s s'
      → Reaches (main_loop env last_block blocks d c s.next) s'
  unfolding main_loop
  main_loop-Blocks last_block blocks s s' d c t no_block = (d, c, refl, t)
  main_loop-Blocks last_block blocks s s' d c t (known_block {b = b} {rest = rest} known steps) =
      rw known (main_loop-Blocks last_block rest s s' d c t steps)
  main_loop-Blocks last_block blocks s s' d c t
        (new_block {b = b} {rest = rest} {s1 = s1} new steps blocks') =
      let (d1, c1, e, t1) =
        operation_loop-Steps b.number (updates_map 0 b.operations []) 0 b.operations s s1 d c t
          steps in
      rw (new, e) (main_loop-Blocks last_block rest s1 s' d1 c1 t1 blocks')
