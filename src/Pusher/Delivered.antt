-- ===== src/Pusher/Delivered.antt =====
-- What the loop is given of the batches that are pushed.
use mathlib.Core.List.{append-nil, append_assoc}
use pebble_bitmap_store_note.Prelude.{
  ℕ, zero, suc, ◌≡◌, refl, sym, ap, ◌∙◌, Bool, true, false, none, List, [], ◌∷◌, ◌++◌, map, length,
  if◌then◌else◌, Bool-cases, inl, inr,
}
use pebble_bitmap_store_note.Events.{Block, BatchOrError}
use pebble_bitmap_store_note.Pusher.{
  Call, push, close, PushIterator, new_push_iterator, pushed, step, run,
}

-- Push the batches, then close.
abbrev pub script : List (List Block) → List Call
script [] = close ∷ []
script (b ∷ bs) = push b ∷ script bs

module _ (yield : BatchOrError → Bool) where
  -- The batches up to the first that the loop refuses, and those after it.
  abbrev pub taken : List (List Block) → List (List Block)
  taken [] = []
  taken (b ∷ bs) = let rest = taken bs in if yield (pushed b) then b ∷ rest else b ∷ []

  abbrev pub stranded : List (List Block) → List (List Block)
  stranded [] = []
  stranded (b ∷ bs) = let rest = stranded bs in if yield (pushed b) then rest else bs

  -- Closed and at its end, or with the push of a batch that is left.
  abbrev pub settled : List (List Block) → List BatchOrError → PushIterator
  settled [] seen = record { calls = []; is_closed = true; is_running = false; yielded = seen }
  settled (b ∷ bs) seen = record {
    calls = script (b ∷ bs);
    is_closed = false;
    is_running = false;
    yielded = seen;
  }

  after_refusal :
      (fuel : ℕ) (bs : List (List Block)) (seen : List BatchOrError)
      → run yield
          (suc fuel)
          (record { calls = script bs; is_closed = false; is_running = false; yielded = seen })
        ≡ settled bs seen
  unfolding run
  after_refusal zero [] seen = refl
  after_refusal (suc fuel) [] seen = refl
  after_refusal fuel (b ∷ bs) seen = refl

  kept :
      (b : List Block) (bs : List (List Block)) (seen : List BatchOrError)
      → yield (pushed b) ≡ true
      → settled (stranded bs) ((seen ++ pushed b ∷ []) ++ map pushed (taken bs))
        ≡ settled (stranded (b ∷ bs)) (seen ++ map pushed (taken (b ∷ bs)))
  kept b bs seen e =
      rw e (ap (settled (stranded bs)) (append_assoc seen (pushed b ∷ []) (map pushed (taken bs))))

  refused :
      (b : List Block) (bs : List (List Block)) (seen : List BatchOrError)
      → yield (pushed b) ≡ false
      → settled bs (seen ++ pushed b ∷ [])
        ≡ settled (stranded (b ∷ bs)) (seen ++ map pushed (taken (b ∷ bs)))
  refused b bs seen e = rw e refl

  run-settled :
      (bs : List (List Block)) (seen : List BatchOrError)
      → run yield
          (suc (suc (length bs)))
          (record { calls = script bs; is_closed = false; is_running = true; yielded = seen })
        ≡ settled (stranded bs) (seen ++ map pushed (taken bs))
  unfolding run
  run-settled [] seen = ap (settled []) (sym (append-nil seen))
  run-settled (b ∷ bs) seen = elim (Bool-cases (yield (pushed b))) [
    | inl e ↦ next e ∙ run-settled bs (seen ++ pushed b ∷ []) ∙ kept b bs seen e
    | inr e ↦
        next e ∙ after_refusal (suc (length bs)) bs (seen ++ pushed b ∷ []) ∙ refused b bs seen e
  ]
    where
      next :
          {t : Bool}
          → yield (pushed b) ≡ t
          → run yield (suc (suc (suc (length bs)))) (record {
            calls = script (b ∷ bs);
            is_closed = false;
            is_running = true;
            yielded = seen;
          })
            ≡ run yield (suc (suc (length bs))) (record {
              calls = script bs;
              is_closed = false;
              is_running = t;
              yielded = seen ++ pushed b ∷ [];
            })
      next e =
          ap
            (λ u. run yield (suc (suc (length bs))) (record {
              calls = script bs;
              is_closed = false;
              is_running = u;
              yielded = seen ++ pushed b ∷ [];
            }))
            e

  settled-step :
      (bs : List (List Block)) (seen : List BatchOrError) → step yield (settled bs seen) ≡ none
  unfolding step
  settled-step [] seen = refl
  settled-step (b ∷ bs) seen = refl

  -- Batches that are pushed, and then the channel closed, reach the loop in their order, each once,
  -- up to the first at which the loop breaks. If none is left after it, the loop and the pushing
  -- goroutine both end; otherwise the push of the next batch has no step, and never returns.
  pub run-delivers :
      (bs : List (List Block))
      → (run yield (suc (suc (length bs))) (new_push_iterator (script bs))
          ≡ settled (stranded bs) (map pushed (taken bs)))
        × (step yield (settled (stranded bs) (map pushed (taken bs))) ≡ none)
  run-delivers bs = (run-settled bs [], settled-step (stranded bs) (map pushed (taken bs)))
