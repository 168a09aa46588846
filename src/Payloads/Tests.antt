-- ===== src/Payloads/Tests.antt =====
-- Inserting and updating the payload of an entity in an in-memory database.
use pebble_bitmap_store_note.Prelude.{
  ◌≡◌, ◌≢◌, not_found, refl, sym, ap, ◌∙◌, none, some, [], ◌∷◌, Bytes, bytes_eq, bytes_eq_iff,
  bytes_eq_refl, codes, length, inl, inr, Bool-cases, ok, err, truncated, ◌>>=◌, eq_of_some,
  if◌then◌else◌, arith, In,
}
use pebble_bitmap_store_note.Packages.Json.{Json}
use pebble_bitmap_store_note.Packages.InMemory.{Table, table_db, table-Reliable, lookup}
use pebble_bitmap_store_note.Payloads.Fresh.{fresh_db, no_entity, none≢some, fresh-Consistent}
use pebble_bitmap_store_note.Encoding.Integers.{put_uint64}
use pebble_bitmap_store_note.Encoding.Keys.{
  prefix_entity_current, prefix_string_bitmap, prefix_numeric_bitmap, entity_count_key,
}
use pebble_bitmap_store_note.Payloads.Record.{Fields, encode_payload_value, decode_payload_value}
use pebble_bitmap_store_note.Payloads.Record.RoundTrip.{Encodable, decode-encode_payload_value}
use pebble_bitmap_store_note.Payloads.Operations.{
  upsert_payload, delete_payload_for_entity_key, get_current_payload_for_entity_key,
}
use pebble_bitmap_store_note.Payloads.Keys.{without_key}
use pebble_bitmap_store_note.Payloads.Deletes.{delete_payload_for_entity_key-removes}
use pebble_bitmap_store_note.Payloads.Consistent.{Consistent, current}
use pebble_bitmap_store_note.Payloads.Upserts.{Stores, upsert_payload-new, upsert_payload-existing}

-- Texts as their own JSON.
abbrev text_json : Json Bytes
text_json = record { marshal = ok; unmarshal = ok }

abbrev some_key : Bytes
some_key = codes "abcdefghijklmnopqrstuvwxyz012345"

abbrev some_fields : Fields Bytes Bytes
some_fields = record {
  entity_key = some_key;
  content_type = codes "text/plain";
  str_attrs = codes "{}";
  num_attrs = codes "{}";
  payload = codes "hello";
}

some_fields-Encodable : Encodable text_json text_json some_fields
some_fields-Encodable = record {
  str_json = codes "{}";
  num_json = codes "{}";
  wide = refl;
  short = omega arith;
  str_marshal = refl;
  str_unmarshal = refl;
  str_small = omega arith;
  num_marshal = refl;
  num_unmarshal = refl;
  num_small = omega arith;
}

decode-encode_payload_value_example :
    (encode_payload_value text_json text_json some_key
        (codes "text/plain")
        (codes "{}")
        (codes "{}")
        (codes "hello")
      >>= decode_payload_value text_json text_json)
    ≡ ok some_fields
decode-encode_payload_value_example =
    decode-encode_payload_value text_json text_json some_fields some_fields-Encodable

-- A record that ends before its content type is refused.
decode_short : decode_payload_value text_json text_json (codes "abc") ≡ err truncated
unfolding decode_payload_value
decode_short = refl

upsert_payload-new_example :
    (d' : Table) × (upsert_payload table_db text_json text_json 1 fresh_db some_fields
      ≡ (2, ok (1, d')))
    × Consistent table_db 2 (some_key ∷ []) d'
    × Stores table_db text_json text_json table-Reliable fresh_db d' 1 some_fields
upsert_payload-new_example =
    upsert_payload-new table_db text_json text_json table-Reliable 1 [] fresh_db some_fields
      fresh-Consistent some_fields-Encodable (omega arith) (no_entity some_key)

-- A store with one entity, whose identifier is 1.
abbrev one_db : Table
one_db = (prefix_entity_current ∷ some_key, put_uint64 1) ∷ (entity_count_key, put_uint64 1) ∷ []

entry :
    (k : Bytes)
    → current table_db one_db k ≡ (if bytes_eq some_key k then some (put_uint64 1) else none)
unfolding lookup entity_count_key bytes_eq
entry k = refl

one_count : lookup one_db entity_count_key ≡ some (put_uint64 1)
unfolding lookup entity_count_key bytes_eq
one_count = refl

the_entity :
    (k v : Bytes) → current table_db one_db k ≡ some v → (some_key ≡ k) × (v ≡ put_uint64 1)
the_entity k v h = elim (Bool-cases (bytes_eq some_key k)) [
  | inl same ↦ ((bytes_eq_iff some_key k).0 same, sym (eq_of_some (sym (rw same at (entry k)) ∙ h)))
  | inr other ↦ absurd (none≢some (sym (rw other at (entry k)) ∙ h))
]

there : current table_db one_db some_key ≡ some (put_uint64 1)
there = rw (bytes_eq_refl some_key) at (entry some_key)

one-Consistent : Consistent table_db 2 (some_key ∷ []) one_db
one-Consistent = record {
  unique = (λ m. m, tt);
  listed = λ k. (listed_to k, λ h. inl (sym (the_entity k h.0 h.1).0));
  numbered = λ k v h. (1, (the_entity k v h).1, omega arith);
  apart = λ k j v h h'. sym (the_entity k v h).0 ∙ (the_entity j v h').0;
  counted = one_count;
  fewer = omega arith;
  in_range = omega arith;
}
  where
    listed_to :
        (k : Bytes) → In k (some_key ∷ []) → (v : Bytes) × (current table_db one_db k ≡ some v)
    listed_to k (inl e) = (put_uint64 1, ap (current table_db one_db) e ∙ there)
    listed_to k (inr m) = absurd m

upsert_payload-existing_example :
    (d' : Table) × (upsert_payload table_db text_json text_json 2 one_db some_fields
      ≡ (2, ok (1, d')))
    × Consistent table_db 2 (some_key ∷ []) d'
    × Stores table_db text_json text_json table-Reliable one_db d' 1 some_fields
upsert_payload-existing_example =
    upsert_payload-existing table_db text_json text_json table-Reliable 2 (some_key ∷ []) one_db
      some_fields 1 one-Consistent some_fields-Encodable (omega arith) there

delete_payload_for_entity_key-removes_example :
    (d' : Table) × (delete_payload_for_entity_key table_db text_json text_json one_db some_key
      ≡ ok d')
    × Consistent table_db 2 (without_key some_key (some_key ∷ [])) d'
    × (get_current_payload_for_entity_key table_db text_json text_json d' some_key ≡ err not_found)
    × ((k : Bytes)
        → length k ≡ 32
        → k ≢ some_key
        → get_current_payload_for_entity_key table_db text_json text_json d' k
          ≡ get_current_payload_for_entity_key table_db text_json text_json one_db k)
    × ((k : Bytes)
        → lookup d' (prefix_string_bitmap ∷ k) ≡ lookup one_db (prefix_string_bitmap ∷ k))
    × ((k : Bytes)
        → lookup d' (prefix_numeric_bitmap ∷ k) ≡ lookup one_db (prefix_numeric_bitmap ∷ k))
delete_payload_for_entity_key-removes_example =
    delete_payload_for_entity_key-removes table_db text_json text_json table-Reliable 2
      (some_key ∷ []) one_db some_key one-Consistent refl (inl refl)
