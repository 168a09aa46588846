-- ===== src/Payloads/Record.antt =====
-- pebblestore/payload_ops.go: the record of a payload as one byte slice, `encodePayloadValue` and
-- `decodePayloadValue`. The attributes are the values that encoding/json marshals.
pub mod RoundTrip
use pebble_bitmap_store_note.Prelude.{
  ℕ, ◌+◌, ◌++◌, Bytes, length, leb, require, truncated, Result, ok, ◌>>=◌,
}
use pebble_bitmap_store_note.Packages.Json.{Json}
use pebble_bitmap_store_note.Encoding.Slices.{slice, slice_from}
use pebble_bitmap_store_note.Encoding.Integers.{u16, u32, put_uint16, put_uint32, uint16, uint32}

-- What a record holds, in the order of the results of `decodePayloadValue`.
pub record Fields (S N : Type 0) : Type 0 where
  pub entity_key : Bytes
  pub content_type : Bytes
  pub str_attrs : S
  pub num_attrs : N
  pub payload : Bytes

-- The length and the bytes of one attribute map, read at an offset; and the offset behind it.
unfoldable pub json_at : Bytes → ℕ → Result (Bytes × ℕ)
json_at record_bytes offset = do
  _ ← require (leb (offset + 4) (length record_bytes)) truncated
  n ← uint32 (← slice_from offset record_bytes)
  _ ← require (leb (offset + 4 + n) (length record_bytes)) truncated
  s ← slice (offset + 4) (offset + 4 + n) record_bytes
  ok (s, offset + 4 + n)

-- The entity key and the content type; and the offset behind them.
unfoldable pub head_of : Bytes → Result (Bytes × Bytes × ℕ)
head_of record_bytes = do
  _ ← require (leb 34 (length record_bytes)) truncated
  entity_key ← slice 0 32 record_bytes
  _ ← require (leb 34 (length record_bytes)) truncated
  n ← uint16 (← slice_from 32 record_bytes)
  _ ← require (leb (34 + n) (length record_bytes)) truncated
  content_type ← slice 34 (34 + n) record_bytes
  ok (entity_key, content_type, 34 + n)

module _ {S N : Type 0} (strings : Json S) (numbers : Json N) where
  unfoldable pub encode_payload_value : Bytes → Bytes → S → N → Bytes → Result Bytes
  encode_payload_value entity_key content_type str_attrs num_attrs payload = do
    str_json ← strings.marshal str_attrs
    num_json ← numbers.marshal num_attrs
    key ← slice 0 32 entity_key
    ok (
        key
        ++ (put_uint16 (u16 (length content_type))
            ++ (content_type
                ++ (put_uint32 (u32 (length str_json))
                    ++ (str_json
                        ++ (put_uint32 (u32 (length num_json)) ++ (num_json ++ payload)))))))

  unfoldable pub decode_payload_value : Bytes → Result (Fields S N)
  unfolding json_at head_of
  decode_payload_value record_bytes = do
    (entity_key, content_type, offset) ← head_of record_bytes
    (str_json, offset') ← json_at record_bytes offset
    str_attrs ← strings.unmarshal str_json
    (num_json, offset'') ← json_at record_bytes offset'
    num_attrs ← numbers.unmarshal num_json
    payload ← slice_from offset'' record_bytes
    ok (record {
      entity_key = entity_key;
      content_type = content_type;
      str_attrs = str_attrs;
      num_attrs = num_attrs;
      payload = payload;
    })
