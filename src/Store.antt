-- ===== src/Store.antt =====
-- pebblestore/pebblestore.go: the counters of the store. `nextIDVal` is the number that the
-- operations pass on; a batch reads its own writes.
use pebble_bitmap_store_note.Prelude.{
  ℕ, ◌+◌, ◌-◌, ◌==◌, true, false, Option, none, some, [], ◌∷◌, Bytes, length, Result, ok, err,
  bad_length, count_underflow, ◌>>=◌, if◌then◌else◌,
}
use pebble_bitmap_store_note.Packages.PebbleDb.{Pebble}
use pebble_bitmap_store_note.Encoding.Integers.{u64, put_uint64, uint64}
use pebble_bitmap_store_note.Encoding.Keys.{
  prefix_entity_current, last_block_key, id_counter_key, entity_count_key,
}
use pebble_bitmap_store_note.Encoding.Ranges.{prefix_upper_bound}

-- A stored value that must be one number of eight bytes.
unfoldable pub eight_bytes : Bytes → Result ℕ
eight_bytes val = if length val == 8 then uint64 val else err bad_length

-- The number under a counter's key, 0 if there is none.
abbrev pub counter : Option Bytes → Result ℕ
counter none = ok 0
counter (some val) = eight_bytes val

module _ (p : Pebble) where
  open p use {Db, get, set, scan}

  unfoldable pub get_last_block : Db → Result ℕ
  get_last_block db = do val ← get db last_block_key; counter val

  unfoldable pub upsert_last_block : Db → ℕ → Result Db
  upsert_last_block batch block = set batch last_block_key (put_uint64 block)

  unfoldable pub get_number_of_entities : Db → Result ℕ
  get_number_of_entities reader = do val ← get reader entity_count_key; counter val

  unfoldable pub count_entities_by_scan : Db → Result ℕ
  count_entities_by_scan reader = do
    found ←
        scan reader (prefix_entity_current ∷ []) (prefix_upper_bound (prefix_entity_current ∷ []))
    ok (u64 (length found))

  unfoldable pub increment_entity_count : Db → Result Db
  unfolding get_number_of_entities
  increment_entity_count batch = do
    count ← get_number_of_entities batch
    set batch entity_count_key (put_uint64 (u64 (count + 1)))

  unfoldable pub decrement_entity_count : Db → Result Db
  unfolding get_number_of_entities
  decrement_entity_count batch = do
    count ← get_number_of_entities batch
    elim (count == 0) [
      | true ↦ err count_underflow
      | false ↦ set batch entity_count_key (put_uint64 (count - 1))
    ]

  -- The counter after the call, and the identifier with the batch. A failed write rolls the
  -- counter back.
  unfoldable pub next_id : ℕ → Db → ℕ × Result (ℕ × Db)
  next_id next_id_val batch = elim (set batch id_counter_key (put_uint64 (u64 (next_id_val + 1)))) [
    | err e ↦ (u64 (u64 (next_id_val + 1) + 18446744073709551615), err e)
    | ok batch' ↦ (u64 (next_id_val + 1), ok (next_id_val, batch'))
  ]

  -- The identifier counter of an opened database.
  unfoldable pub load_id_counter : Option Bytes → Result ℕ
  load_id_counter none = ok 1
  load_id_counter (some val) = if length val == 8 then uint64 val else ok 1

  -- What `NewPebbleStore` reads and writes once the database is open.
  unfoldable pub new_pebble_store : Db → Result (ℕ × Db)
  unfolding load_id_counter count_entities_by_scan
  new_pebble_store db = do
    next_id_val ← load_id_counter (← get db id_counter_key)
    existing ← get db entity_count_key
    elim existing [
      | some _ ↦ ok (next_id_val, db)
      | none ↦ do
        count ← count_entities_by_scan db
        db' ← set db entity_count_key (put_uint64 count)
        ok (next_id_val, db')
    ]
