-- ===== src/Payloads/Operations.antt =====
-- pebblestore/payload_ops.go: writing, reading and deleting the payload of an entity. The reader
-- and the batch are the same indexed batch, as every call in the repository has it.
use pebble_bitmap_store_note.Prelude.{
  ℕ, Bool, ltb, Option, none, some, List, [], ◌∷◌, Bytes, Result, ok, err, missing_record,
  not_found, ◌>>=◌,
}
use pebble_bitmap_store_note.Packages.PebbleDb.{Pebble}
use pebble_bitmap_store_note.Packages.Json.{Json}
use pebble_bitmap_store_note.Encoding.Integers.{put_uint64}
use pebble_bitmap_store_note.Encoding.Keys.{entity_current_key, payload_key}
use pebble_bitmap_store_note.Store.{
  eight_bytes, next_id, increment_entity_count, decrement_entity_count,
}
use pebble_bitmap_store_note.Payloads.Record.{Fields, encode_payload_value, decode_payload_value}

-- The arguments of an insertion or an update are the fields of the record.
abbrev pub UpsertPayloadParams : Type 0 → Type 0 → Type 0
UpsertPayloadParams S N = Fields S N

pub record PayloadRow (S N : Type 0) : Type 0 where
  pub id : ℕ
  pub fields : Fields S N

module _ (p : Pebble) {S N : Type 0} (strings : Json S) (numbers : Json N) where
  open p use {Db, get, set, delete}

  -- The end of `UpsertPayload`, which both of its branches come to.
  unfoldable pub write_payload : Db → Bytes → ℕ → UpsertPayloadParams S N → Result (ℕ × Db)
  write_payload batch ec_key id arg = do
    batch' ← set batch ec_key (put_uint64 id)
    encoded ←
        encode_payload_value strings numbers arg.entity_key arg.content_type arg.str_attrs
          arg.num_attrs arg.payload
    batch'' ← set batch' (payload_key id) encoded
    ok (id, batch'')

  -- `UpsertPayload` once the entity has been looked up.
  unfoldable pub upsert_found :
      ℕ → Db → Bytes → UpsertPayloadParams S N → Result (Option Bytes) → ℕ × Result (ℕ × Db)
  unfolding write_payload
  upsert_found next_id_val batch ec_key arg (err e) = (next_id_val, err e)
  upsert_found next_id_val batch ec_key arg (ok none) =
      let (next_id_val', allocated) = next_id p next_id_val batch in
      (
        next_id_val',
        do
          (id, batch') ← allocated
          batch'' ← increment_entity_count p batch'
          write_payload batch'' ec_key id arg,
      )
  upsert_found next_id_val batch ec_key arg (ok (some val)) =
      (next_id_val, do id ← eight_bytes val; write_payload batch ec_key id arg)

  -- The identifier counter is kept when the call fails.
  unfoldable pub upsert_payload : ℕ → Db → UpsertPayloadParams S N → ℕ × Result (ℕ × Db)
  unfolding upsert_found
  upsert_payload next_id_val batch arg = elim (entity_current_key arg.entity_key) [
    | err e ↦ (next_id_val, err e)
    | ok ec_key ↦ upsert_found next_id_val batch ec_key arg (get batch ec_key)
  ]

  -- The identifier that the database holds for an entity.
  unfoldable pub current_id : Db → Bytes → Result ℕ
  current_id reader ec_key = do
    val ← get reader ec_key
    elim val [ none ↦ err not_found | some v ↦ eight_bytes v ]

  unfoldable pub get_current_payload_for_entity_key : Db → Bytes → Result (PayloadRow S N)
  unfolding current_id
  get_current_payload_for_entity_key reader entity_key = do
    ec_key ← entity_current_key entity_key
    id ← current_id reader ec_key
    val ← get reader (payload_key id)
    elim val [
      | none ↦ err missing_record
      | some v ↦ do
        fields ← decode_payload_value strings numbers v
        ok (record { id = id; fields = fields })
    ]

  unfoldable pub delete_payload_for_entity_key : Db → Bytes → Result Db
  unfolding current_id
  delete_payload_for_entity_key batch entity_key = do
    ec_key ← entity_current_key entity_key
    id ← current_id batch ec_key
    batch' ← delete batch (payload_key id)
    batch'' ← delete batch' ec_key
    decrement_entity_count p batch''

  -- The loop of `retrievePayloads`: an identifier with no record is passed over.
  unfoldable pub payload_rows : Db → List ℕ → Result (List (PayloadRow S N))
  payload_rows reader [] = ok []
  payload_rows reader (id ∷ ids) = do
    val ← get reader (payload_key id)
    elim val [
      | none ↦ payload_rows reader ids
      | some v ↦ do
        fields ← decode_payload_value strings numbers v
        rows ← payload_rows reader ids
        ok (record { id = id; fields = fields } ∷ rows)
    ]

  -- `sort.Slice` is a parameter.
  unfoldable pub retrieve_payloads :
      ((PayloadRow S N → PayloadRow S N → Bool) → List (PayloadRow S N) → List (PayloadRow S N))
      → Db
      → List ℕ
      → Result (List (PayloadRow S N))
  unfolding payload_rows
  retrieve_payloads sort_slice reader ids = do
    rows ← payload_rows reader ids
    ok (sort_slice (λ i j. ltb j.id i.id) rows)
