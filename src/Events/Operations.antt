-- ===== src/Events/Operations.antt =====
-- pebblestore/follow_events.go: one operation of a block, on the batch and the cache. The order in
-- which Go ranges over a map is the parameter `range`.
use pebble_bitmap_store_note.Prelude.{ℕ, ◌+◌, none, some, Bytes, err, unknown_operation, codes}
use pebble_bitmap_store_note.Packages.PebbleDb.{Pebble}
use pebble_bitmap_store_note.Packages.Roaring64.{Roaring}
use pebble_bitmap_store_note.Encoding.Integers.{u64}
use pebble_bitmap_store_note.Maps.{
  Entries, GoMap, MapJson, attributes_json, map_entries, map_index, map_assign, clone,
  new_string_attributes, new_numeric_attributes,
}
use pebble_bitmap_store_note.Cache.{
  BitmapCache, add_to_string_bitmap, remove_from_string_bitmap, add_to_numeric_bitmap,
  remove_from_numeric_bitmap,
}
use pebble_bitmap_store_note.Payloads.Record.{Fields}
use pebble_bitmap_store_note.Payloads.Operations.{
  PayloadRow, upsert_payload, get_current_payload_for_entity_key, delete_payload_for_entity_key,
}
use pebble_bitmap_store_note.Events.{OpCreate, OpUpdate, OpExtendBtl, OpChangeOwner, Operation}
use pebble_bitmap_store_note.Events.Exec.{Exec, ◌>>=◌, call, done}
use pebble_bitmap_store_note.Events.Attributes.{
  expiration_name, owner_name, create_strings, create_numbers, update_strings, update_numbers,
}
use pebble_bitmap_store_note.Events.Loops.{add_strings, remove_strings, add_numbers, remove_numbers}

-- The packages and functions that the operations call.
pub record Environment : Type 1 where
  pub pebble : Pebble
  pub roaring : Roaring
  pub string_json : MapJson Bytes
  pub number_json : MapJson ℕ
  pub to_lower : Bytes → Bytes
  pub hash_hex : Bytes → Bytes
  pub address_hex : Bytes → Bytes
  pub string_range : Entries Bytes → Entries Bytes
  pub number_range : Entries ℕ → Entries ℕ

module _ (env : Environment) where
  open env use {
    pebble, roaring, string_json, number_json, to_lower, hash_hex, address_hex, string_range,
    number_range,
  }

  abbrev pub Db : Type 0
  Db = pebble.Db

  abbrev pub Cache : Type 0
  Cache = BitmapCache roaring.Bitmap

  abbrev pub EntityFields : Type 0
  EntityFields = Fields (GoMap Bytes) (GoMap ℕ)

  abbrev pub upsert : Db → EntityFields → Exec (ℕ × Db)
  upsert batch arg = λ n.
      upsert_payload pebble (attributes_json string_json) (attributes_json number_json) n batch arg

  abbrev pub latest : Db → Bytes → Exec (PayloadRow (GoMap Bytes) (GoMap ℕ))
  latest batch key = call (
      get_current_payload_for_entity_key pebble (attributes_json string_json)
        (attributes_json number_json) batch key)

  unfoldable pub apply_create : ℕ → ℕ → ℕ → OpCreate → Db → Cache → Exec (Db × Cache)
  apply_create number tx_index op_index create batch cache = do
    strs ← call (create_strings to_lower hash_hex address_hex create)
    nums ← call (create_numbers number tx_index op_index create)
    (id, batch) ← upsert batch (record {
      entity_key = create.key;
      content_type = create.content_type;
      str_attrs = new_string_attributes strs;
      num_attrs = new_numeric_attributes nums;
      payload = create.content;
    })
    cache ← call (add_strings pebble roaring batch id cache (string_range (map_entries strs)))
    cache ← call (add_numbers pebble roaring batch id cache (number_range (map_entries nums)))
    done (batch, cache)

  unfoldable pub apply_update : ℕ → OpUpdate → Db → Cache → Exec (Db × Cache)
  apply_update number update batch cache = do
    row ← latest batch update.key
    let old_strs = row.fields.str_attrs
    let old_nums = row.fields.num_attrs
    strs ← call (update_strings to_lower hash_hex address_hex old_strs update)
    nums ← call (update_numbers number old_nums update)
    (id, batch) ← upsert batch (record {
      entity_key = update.key;
      content_type = update.content_type;
      str_attrs = new_string_attributes strs;
      num_attrs = new_numeric_attributes nums;
      payload = update.content;
    })
    cache ←
        call (remove_strings pebble roaring batch id cache (string_range (map_entries old_strs)))
    cache ←
        call (remove_numbers pebble roaring batch id cache (number_range (map_entries old_nums)))
    cache ← call (add_strings pebble roaring batch id cache (string_range (map_entries strs)))
    cache ← call (add_numbers pebble roaring batch id cache (number_range (map_entries nums)))
    done (batch, cache)

  -- `Delete` and `Expire` are the same with their keys.
  unfoldable pub apply_delete : Bytes → Db → Cache → Exec (Db × Cache)
  apply_delete key batch cache = do
    row ← latest batch key
    cache ← call (
        remove_strings pebble roaring batch row.id cache
          (string_range (map_entries row.fields.str_attrs)))
    cache ← call (
        remove_numbers pebble roaring batch row.id cache
          (number_range (map_entries row.fields.num_attrs)))
    batch ← call (
        delete_payload_for_entity_key pebble (attributes_json string_json)
          (attributes_json number_json) batch key)
    done (batch, cache)

  unfoldable pub apply_extend_btl : OpExtendBtl → Db → Cache → Exec (Db × Cache)
  apply_extend_btl extend batch cache = do
    row ← latest batch extend.key
    let old_expiration = map_index 0 row.fields.num_attrs expiration_name
    let new_to_block = u64 (old_expiration + extend.btl)
    nums ← call (map_assign (clone row.fields.num_attrs) expiration_name new_to_block)
    (id, batch) ← upsert batch (record {
      entity_key = extend.key;
      content_type = row.fields.content_type;
      str_attrs = row.fields.str_attrs;
      num_attrs = new_numeric_attributes nums;
      payload = row.fields.payload;
    })
    cache ←
        call
          (remove_from_numeric_bitmap pebble roaring batch cache expiration_name old_expiration id)
    cache ← call (add_to_numeric_bitmap pebble roaring batch cache expiration_name new_to_block id)
    done (batch, cache)

  unfoldable pub apply_change_owner : OpChangeOwner → Db → Cache → Exec (Db × Cache)
  apply_change_owner change batch cache = do
    row ← latest batch change.key
    let old_owner = map_index (codes "") row.fields.str_attrs owner_name
    let new_owner = to_lower (address_hex change.owner)
    strs ← call (map_assign row.fields.str_attrs owner_name new_owner)
    (id, batch) ← upsert batch (record {
      entity_key = change.key;
      content_type = row.fields.content_type;
      str_attrs = strs;
      num_attrs = row.fields.num_attrs;
      payload = row.fields.payload;
    })
    cache ← call (remove_from_string_bitmap pebble roaring batch cache owner_name old_owner id)
    cache ← call (add_to_string_bitmap pebble roaring batch cache owner_name new_owner id)
    done (batch, cache)

  -- The cases of the switch past `Create` and `Update`.
  unfoldable pub apply_rest : Operation → Db → Cache → Exec (Db × Cache)
  unfolding apply_delete apply_extend_btl apply_change_owner
  apply_rest operation batch cache = elim operation.delete [
    | some key ↦ apply_delete key batch cache
    | none ↦ elim operation.expire [
      | some key ↦ apply_delete key batch cache
      | none ↦ elim operation.extend_btl [
        | some extend ↦ apply_extend_btl extend batch cache
        | none ↦ elim operation.change_owner [
          | some change ↦ apply_change_owner change batch cache
          | none ↦ call (err unknown_operation)
        ]
      ]
    ]
  ]
