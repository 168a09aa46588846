-- ===== src/Events/Attributes.antt =====
-- pebblestore/follow_events.go: the attributes that the operations give an entity. `to_lower` is
-- `strings.ToLower`; `hash_hex` and `address_hex` are the methods `Hex` of common.Hash and
-- common.Address.
use Prim.Native.Nat.{bit_or}
use pebble_bitmap_store_note.Prelude.{
  ℕ, ◌+◌, ◌*◌, Bool, ◌||◌, [], Bytes, bytes_eq, codes, Result, ◌>>=◌,
}
use pebble_bitmap_store_note.Encoding.Integers.{u64}
use pebble_bitmap_store_note.Maps.{GoMap, map_index, map_assign, clone}
use pebble_bitmap_store_note.Events.{OpCreate, OpUpdate}

abbrev pub owner_name : Bytes
owner_name = codes "$owner"

abbrev pub creator_name : Bytes
creator_name = codes "$creator"

abbrev pub key_name : Bytes
key_name = codes "$key"

abbrev pub expiration_name : Bytes
expiration_name = codes "$expiration"

abbrev pub created_at_block_name : Bytes
created_at_block_name = codes "$createdAtBlock"

abbrev pub last_modified_at_block_name : Bytes
last_modified_at_block_name = codes "$lastModifiedAtBlock"

abbrev pub sequence_name : Bytes
sequence_name = codes "$sequence"

abbrev pub tx_index_name : Bytes
tx_index_name = codes "$txIndex"

abbrev pub op_index_name : Bytes
op_index_name = codes "$opIndex"

-- The numeric attributes that have no bitmaps.
unfoldable pub is_not_indexed : Bytes → Bool
is_not_indexed k = bytes_eq k tx_index_name || bytes_eq k op_index_name

-- block.Number<<32 | operation.TxIndex<<16 | operation.OpIndex
unfoldable pub sequence_of : ℕ → ℕ → ℕ → ℕ
sequence_of number tx_index op_index =
    bit_or (bit_or (u64 (number * 4294967296)) (u64 (tx_index * 65536))) op_index

unfoldable pub create_numbers : ℕ → ℕ → ℕ → OpCreate → Result (GoMap ℕ)
unfolding sequence_of
create_numbers number tx_index op_index create = do
  let m = clone create.numeric_attributes
  m ← map_assign m expiration_name (u64 (number + create.btl))
  m ← map_assign m created_at_block_name number
  m ← map_assign m last_modified_at_block_name number
  m ← map_assign m sequence_name (sequence_of number tx_index op_index)
  m ← map_assign m tx_index_name tx_index
  map_assign m op_index_name op_index

unfoldable pub update_numbers : ℕ → GoMap ℕ → OpUpdate → Result (GoMap ℕ)
update_numbers number old update = do
  let m = clone update.numeric_attributes
  m ← map_assign m expiration_name (u64 (number + update.btl))
  m ← map_assign m created_at_block_name (map_index 0 old created_at_block_name)
  m ← map_assign m sequence_name (map_index 0 old sequence_name)
  m ← map_assign m tx_index_name (map_index 0 old tx_index_name)
  m ← map_assign m op_index_name (map_index 0 old op_index_name)
  map_assign m last_modified_at_block_name number

module _ (to_lower hash_hex address_hex : Bytes → Bytes) where
  unfoldable pub create_strings : OpCreate → Result (GoMap Bytes)
  create_strings create = do
    let m = clone create.string_attributes
    m ← map_assign m owner_name (to_lower (address_hex create.owner))
    m ← map_assign m creator_name (to_lower (address_hex create.owner))
    map_assign m key_name (to_lower (hash_hex create.key))

  unfoldable pub update_strings : GoMap Bytes → OpUpdate → Result (GoMap Bytes)
  update_strings old update = do
    let m = clone update.string_attributes
    m ← map_assign m owner_name (to_lower (address_hex update.owner))
    m ← map_assign m creator_name (map_index [] old creator_name)
    map_assign m key_name (to_lower (hash_hex update.key))
