-- ===== src/QueryRpc/Entity.antt =====
-- pebblestore/query_rpc.go: an entity of the response. `bytes_to_hash` and `hex_to_address` are of
-- go-ethereum, `sort_func` is `slices.SortFunc` and `range` goes through a map in Go's order.
use pebble_bitmap_store_note.Prelude.{
  ℕ, Bool, true, false, not, ◌&&◌, Option, none, some, [], ◌∷◌, Bytes, bytes_lt, codes,
  if◌then◌else◌,
}
use pebble_bitmap_store_note.Encoding.Ranges.{has_prefix}
use pebble_bitmap_store_note.Maps.{Entries, GoMap, map_entries, map_index}
use pebble_bitmap_store_note.Payloads.Operations.{PayloadRow}
use pebble_bitmap_store_note.Events.Attributes.{
  owner_name, creator_name, expiration_name, created_at_block_name, last_modified_at_block_name,
  tx_index_name, op_index_name,
}
use pebble_bitmap_store_note.QueryRpc.Options.{IncludeData}

-- A field that is not included is `none`; the attributes are `none` for a nil slice.
pub record EntityData : Type 0 where
  pub key : Option Bytes
  pub value : Option Bytes
  pub content_type : Option Bytes
  pub expires_at : Option ℕ
  pub creator : Option Bytes
  pub owner : Option Bytes
  pub created_at_block : Option ℕ
  pub last_modified_at_block : Option ℕ
  pub transaction_index_in_block : Option ℕ
  pub operation_index_in_transaction : Option ℕ
  pub string_attributes : Option (Entries Bytes)
  pub numeric_attributes : Option (Entries ℕ)

unfoldable pub synthetic_predicate : Bytes → Bool
synthetic_predicate k = has_prefix (codes "$") k

unfoldable pub non_synthetic_predicate : Bytes → Bool
non_synthetic_predicate k = not (has_prefix (codes "$") k)

unfoldable pub any_predicate : Bytes → Bool
any_predicate k = true

module _ {T : Type 0} where
  unfoldable pub passing : (Bytes → Bool) → Entries T → Entries T
  passing predicate [] = []
  passing predicate ((k, v) ∷ m) =
      let rest = passing predicate m in if predicate k then (k, v) ∷ rest else rest

  -- The order of the sort is that of the keys.
  unfoldable pub filter_attributes :
      (Entries T → Entries T)
      → (((Bytes × T) → (Bytes × T) → Bool) → Entries T → Entries T)
      → (Bytes → Bool)
      → GoMap T
      → Entries T
  unfolding passing
  filter_attributes range sort_func predicate m =
      sort_func (λ i j. bytes_lt i.0 j.0) (passing predicate (range (map_entries m)))

abbrev pub included : {A : Type 0} → Bool → A → Option A
included true a = some a
included false a = none

module _ (bytes_to_hash hex_to_address : Bytes → Bytes)
    (string_range : Entries Bytes → Entries Bytes) (number_range : Entries ℕ → Entries ℕ)
    (sort_strings : ((Bytes × Bytes) → (Bytes × Bytes) → Bool) → Entries Bytes → Entries Bytes)
    (sort_numbers : ((Bytes × ℕ) → (Bytes × ℕ) → Bool) → Entries ℕ → Entries ℕ) where
  -- The predicate of the switch, if one of its cases is taken.
  unfoldable pub attribute_predicate : IncludeData → Option (Bytes → Bool)
  attribute_predicate include =
      if include.attributes && include.synthetic_attributes
      then some any_predicate
      else if include.attributes
      then some non_synthetic_predicate
      else if include.synthetic_attributes
      then some synthetic_predicate
      else none

  unfoldable pub to_payload : PayloadRow (GoMap Bytes) (GoMap ℕ) → IncludeData → EntityData
  unfolding attribute_predicate filter_attributes
  to_payload r include = record {
    key = included include.key (bytes_to_hash r.fields.entity_key);
    value = included include.payload r.fields.payload;
    content_type = included include.content_type r.fields.content_type;
    expires_at = included include.expiration (map_index 0 r.fields.num_attrs expiration_name);
    creator =
        included include.creator (hex_to_address (map_index [] r.fields.str_attrs creator_name));
    owner = included include.owner (hex_to_address (map_index [] r.fields.str_attrs owner_name));
    created_at_block =
        included include.created_at_block (map_index 0 r.fields.num_attrs created_at_block_name);
    last_modified_at_block =
        included include.last_modified_at_block
          (map_index 0 r.fields.num_attrs last_modified_at_block_name);
    transaction_index_in_block =
        included include.transaction_index_in_block (map_index 0 r.fields.num_attrs tx_index_name);
    operation_index_in_transaction =
        included include.operation_index_in_transaction
          (map_index 0 r.fields.num_attrs op_index_name);
    string_attributes = elim (attribute_predicate include) [
      | none ↦ none
      | some predicate ↦
          some (filter_attributes string_range sort_strings predicate r.fields.str_attrs)
    ];
    numeric_attributes = elim (attribute_predicate include) [
      | none ↦ none
      | some predicate ↦
          some (filter_attributes number_range sort_numbers predicate r.fields.num_attrs)
    ];
  }
