-- ===== src/Pusher.antt =====
-- pusher/push_iterator.go: the batches that one goroutine pushes and another ranges over. The
-- channel has no buffer, so a push and a round of the loop are one step.
pub mod Delivered
mod Tests
use pebble_bitmap_store_note.Prelude.{
  ℕ, zero, suc, Bool, true, false, Option, none, some, List, [], ◌∷◌, ◌++◌,
}
use pebble_bitmap_store_note.Events.{Block, BatchOrError}

-- What the pushing goroutine calls.
pub data Call : Type 0 where
  push : List Block → Call
  close : Call

-- The channel and its two goroutines: the calls to come, whether the channel is closed, whether
-- the loop over `Iterator` goes on, and the batches that it has been given.
pub record PushIterator : Type 0 where
  pub calls : List Call
  pub is_closed : Bool
  pub is_running : Bool
  pub yielded : List BatchOrError

abbrev pub new_push_iterator : List Call → PushIterator
new_push_iterator calls = record {
  calls = calls;
  is_closed = false;
  is_running = true;
  yielded = [];
}

-- What `Push` sends.
abbrev pub pushed : List Block → BatchOrError
pushed blocks = record { blocks = blocks; error = none }

module _ (yield : BatchOrError → Bool) where
  -- The step of `Push`, which waits for the loop and fails on a closed channel.
  abbrev pub push_step : List Block → List Call → PushIterator → Option PushIterator
  push_step b rest s = elim s.is_closed [
    | true ↦ none
    | false ↦ elim s.is_running [
      | false ↦ none
      | true ↦ some (record {
        calls = rest;
        is_closed = false;
        is_running = yield (pushed b);
        yielded = s.yielded ++ pushed b ∷ [];
      })
    ]
  ]

  -- The step of `Close`, which fails on a closed channel.
  abbrev pub close_step : List Call → PushIterator → Option PushIterator
  close_step rest s = elim s.is_closed [
    | true ↦ none
    | false ↦ some (record s { calls = rest; is_closed = true })
  ]

  -- The step of the range, which ends on a closed channel.
  abbrev pub range_step : PushIterator → Option PushIterator
  range_step s = elim s.is_closed [
    | false ↦ none
    | true ↦ elim s.is_running [ false ↦ none | true ↦ some (record s { is_running = false }) ]
  ]

  -- The next step, if there is one.
  unfoldable pub step : PushIterator → Option PushIterator
  step s = elim s.calls [
    | [] ↦ range_step s
    | call ∷ rest ↦ elim call [ push b ↦ push_step b rest s | close ↦ close_step rest s ]
  ]

  -- At most this many steps.
  unfoldable pub run : ℕ → PushIterator → PushIterator
  unfolding step
  run zero s = s
  run (suc fuel) s = elim (step s) [ none ↦ s | some s' ↦ run fuel s' ]
