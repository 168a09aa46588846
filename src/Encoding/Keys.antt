-- ===== src/Encoding/Keys.antt =====
-- pebblestore/encoding.go: how each key is laid out, and the decoding of the index keys.
pub mod RoundTrip
use pebble_bitmap_store_note.Prelude.{ℕ, ◌+◌, [], ◌∷◌, ◌++◌, Bytes, length, Result, ok, ◌>>=◌}
use pebble_bitmap_store_note.Encoding.Slices.{slice, slice_from}
use pebble_bitmap_store_note.Encoding.Integers.{u16, put_uint16, put_uint64, uint16, uint64}

abbrev pub prefix_last_block : ℕ
prefix_last_block = 0x01

abbrev pub prefix_payload : ℕ
prefix_payload = 0x02

abbrev pub prefix_entity_current : ℕ
prefix_entity_current = 0x03

abbrev pub prefix_id_counter : ℕ
prefix_id_counter = 0x06

abbrev pub prefix_entity_count : ℕ
prefix_entity_count = 0x07

abbrev pub prefix_string_bitmap : ℕ
prefix_string_bitmap = 0x10

abbrev pub prefix_numeric_bitmap : ℕ
prefix_numeric_bitmap = 0x20

unfoldable pub last_block_key : Bytes
last_block_key = prefix_last_block ∷ []

unfoldable pub payload_key : ℕ → Bytes
payload_key id = prefix_payload ∷ put_uint64 id

-- `entityKey[:32]` panics on a shorter key, and drops what is past 32 bytes.
unfoldable pub entity_current_key : Bytes → Result Bytes
entity_current_key entity_key = do k ← slice 0 32 entity_key; ok (prefix_entity_current ∷ k)

unfoldable pub id_counter_key : Bytes
id_counter_key = prefix_id_counter ∷ []

unfoldable pub entity_count_key : Bytes
entity_count_key = prefix_entity_count ∷ []

unfoldable pub string_bitmap_name_prefix : Bytes → Bytes
string_bitmap_name_prefix name = prefix_string_bitmap ∷ (put_uint16 (u16 (length name)) ++ name)

unfoldable pub numeric_bitmap_name_prefix : Bytes → Bytes
numeric_bitmap_name_prefix name = prefix_numeric_bitmap ∷ (put_uint16 (u16 (length name)) ++ name)

unfoldable pub string_bitmap_key : Bytes → Bytes → Bytes
string_bitmap_key name value =
    prefix_string_bitmap
    ∷ (put_uint16 (u16 (length name)) ++ (name ++ (put_uint16 (u16 (length value)) ++ value)))

unfoldable pub numeric_bitmap_key : Bytes → ℕ → Bytes
numeric_bitmap_key name value =
    prefix_numeric_bitmap ∷ (put_uint16 (u16 (length name)) ++ (name ++ put_uint64 value))

-- The bounds are of type uint16, and wrap.
unfoldable pub decode_string_bitmap_key : Bytes → Result (Bytes × Bytes)
decode_string_bitmap_key key = do
  name_len ← uint16 (← slice 1 3 key)
  name ← slice 3 (u16 (3 + name_len)) key
  let value_offset = u16 (3 + name_len)
  value_len ← uint16 (← slice value_offset (u16 (value_offset + 2)) key)
  value ← slice (u16 (value_offset + 2)) (u16 (u16 (value_offset + 2) + value_len)) key
  ok (name, value)

unfoldable pub decode_numeric_bitmap_key : Bytes → Result (Bytes × ℕ)
decode_numeric_bitmap_key key = do
  name_len ← uint16 (← slice 1 3 key)
  name ← slice 3 (u16 (3 + name_len)) key
  value ← uint64 (← slice_from (u16 (3 + name_len)) key)
  ok (name, value)
