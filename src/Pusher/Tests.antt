-- ===== src/Pusher/Tests.antt =====
-- Three batches, at the second of which the loop breaks.
use pebble_bitmap_store_note.Prelude.{ℕ, ◌≡◌, refl, Bool, true, false, none, List, [], ◌∷◌}
use pebble_bitmap_store_note.Events.{Block, BatchOrError}
use pebble_bitmap_store_note.Pusher.{new_push_iterator, pushed, step, run}
use pebble_bitmap_store_note.Pusher.Delivered.{script, settled, run-delivers}

abbrev block_of : ℕ → Block
block_of number = record { number = number; operations = [] }

abbrev three_batches : List (List Block)
three_batches = (block_of 1 ∷ []) ∷ [] ∷ (block_of 2 ∷ []) ∷ []

-- A batch with no blocks ends the loop.
abbrev has_blocks : BatchOrError → Bool
has_blocks b = elim b.blocks [ [] ↦ false | block ∷ rest ↦ true ]

run-delivers_example :
    (run has_blocks 5 (new_push_iterator (script three_batches))
      ≡ settled has_blocks ((block_of 2 ∷ []) ∷ []) (pushed (block_of 1 ∷ []) ∷ pushed [] ∷ []))
    × (step has_blocks
          (settled has_blocks ((block_of 2 ∷ []) ∷ []) (pushed (block_of 1 ∷ []) ∷ pushed [] ∷ []))
        ≡ none)
run-delivers_example = run-delivers has_blocks three_batches

-- With no break all three arrive and the channel is closed.
all_arrive : run (λ b. true) 5 (new_push_iterator (script three_batches)) ≡ record {
  calls = [];
  is_closed = true;
  is_running = false;
  yielded = pushed (block_of 1 ∷ []) ∷ pushed [] ∷ pushed (block_of 2 ∷ []) ∷ [];
}
unfolding run
all_arrive = refl
