-- ===== src/Events/LastUpdate.antt =====
-- Which update of an entity counts in a block.
use pebble_bitmap_store_note.Prelude.{
  ℕ, suc, ◌≡◌, refl, sym, ap, ◌∙◌, Bool, true, false, Option, none, some, List, [], ◌∷◌, ◌++◌,
  Bytes, bytes_eq, Result, ok, err, panic, if◌then◌else◌,
}
use pebble_bitmap_store_note.Maps.{Entries, get_entry, set_entry}
use pebble_bitmap_store_note.Maps.Laws.{get_entry-set_entry}
use pebble_bitmap_store_note.Events.{Operation, OpUpdate}
use pebble_bitmap_store_note.Events.Blocks.{slice_at, last_of, updates_map}

-- The operation updates the entity.
abbrev pub is_update_of : Operation → Bytes → Bool
is_update_of o key = elim o.update [ none ↦ false | some u ↦ bytes_eq u.key key ]

-- The position of the last operation that updates the entity, if there is one.
unfoldable pub last_update : ℕ → List Operation → Bytes → Option ℕ
last_update position [] key = none
last_update position (o ∷ rest) key = elim (last_update (suc position) rest key) [
  | some later ↦ some later
  | none ↦ if is_update_of o key then some position else none
]

abbrev pub or_panic : Option ℕ → Result ℕ
or_panic none = err panic
or_panic (some position) = ok position

abbrev after : Option ℕ → Result ℕ → Result ℕ
after none before = before
after (some position) before = ok position

last_of-append : (l : List ℕ) (position : ℕ) → last_of (l ++ (position ∷ [])) ≡ ok position
unfolding last_of
last_of-append [] position = refl
last_of-append (x ∷ []) position = refl
last_of-append (x ∷ y ∷ l) position = last_of-append (y ∷ l) position

one_more :
    (m : Entries (List ℕ)) (k key : Bytes) (position : ℕ)
    → last_of (slice_at (set_entry m k (slice_at m k ++ (position ∷ []))) key)
      ≡ (if bytes_eq k key then ok position else last_of (slice_at m key))
one_more m k key position =
    ap (λ o. last_of (or_nil o)) (get_entry-set_entry m k (slice_at m k ++ (position ∷ [])) key)
    ∙ by_test (bytes_eq k key) (get_entry m key)
  where
    or_nil : Option (List ℕ) → List ℕ
    or_nil o = elim o as (λ _. List ℕ) [ none ↦ [] | some l ↦ l ]

    by_test :
        (t : Bool) (o : Option (List ℕ))
        → last_of (or_nil (if t then some (slice_at m k ++ (position ∷ [])) else o))
          ≡ (if t then ok position else last_of (or_nil o))
    by_test true o = last_of-append (slice_at m k) position
    by_test false o = refl

after-update :
    (later : Option ℕ) (t : Bool) (position : ℕ) (before : Result ℕ)
    → after later (if t then ok position else before)
      ≡ after
          (elim later as (λ _. Option ℕ) [
            | some p ↦ some p
            | none ↦ if t then some position else none
          ])
          before
after-update none true position before = refl
after-update none false position before = refl
after-update (some p) t position before = refl

updates_map-after :
    (ops : List Operation) (position : ℕ) (m : Entries (List ℕ)) (key : Bytes)
    → last_of (slice_at (updates_map position ops m) key)
      ≡ after (last_update position ops key) (last_of (slice_at m key))
unfolding updates_map last_update
updates_map-after [] position m key = refl
updates_map-after (o ∷ rest) position m key =
    by_update o.update refl (λ m'. updates_map-after rest (suc position) m' key)
  where
    before : Result ℕ
    before = last_of (slice_at m key)

    is_for : Option OpUpdate → Bool
    is_for u = elim u as (λ _. Bool) [ none ↦ false | some v ↦ bytes_eq v.key key ]

    chosen : Option OpUpdate → Result ℕ
    chosen u = last_of (
        slice_at
          (elim u as (λ _. Entries (List ℕ)) [
            | none ↦ updates_map (suc position) rest m
            | some v ↦
                updates_map (suc position) rest
                  (set_entry m v.key (slice_at m v.key ++ (position ∷ [])))
          ])
          key)

    by_update :
        (u : Option OpUpdate)
        → o.update ≡ u
        → ((m' : Entries (List ℕ))
            → last_of (slice_at (updates_map (suc position) rest m') key)
              ≡ after (last_update (suc position) rest key) (last_of (slice_at m' key)))
        → last_of (slice_at (updates_map position (o ∷ rest) m) key)
          ≡ after (last_update position (o ∷ rest) key) (last_of (slice_at m key))
    by_update none e next =
        ap chosen e
        ∙ next m
        ∙ ap (λ t. after (last_update (suc position) rest key) (if t then ok position else before))
            (sym (ap is_for e))
        ∙ after-update (last_update (suc position) rest key) (is_update_of o key) position before
    by_update (some u) e next =
        ap chosen e
        ∙ next (set_entry m u.key (slice_at m u.key ++ (position ∷ [])))
        ∙ ap (after (last_update (suc position) rest key)) (one_more m u.key key position)
        ∙ ap (λ t. after (last_update (suc position) rest key) (if t then ok position else before))
            (sym (ap is_for e))
        ∙ after-update (last_update (suc position) rest key) (is_update_of o key) position before

-- The update that `updatesMap` has last for an entity is the last operation of the block that
-- updates it; there is none exactly if no operation does.
pub updates_map-last_update :
    (ops : List Operation) (key : Bytes)
    → last_of (slice_at (updates_map 0 ops []) key) ≡ or_panic (last_update 0 ops key)
unfolding last_of get_entry
updates_map-last_update ops key = updates_map-after ops 0 [] key ∙ plain (last_update 0 ops key)
  where
    plain : (o : Option ℕ) → after o (err panic) ≡ or_panic o
    plain none = refl
    plain (some p) = refl
