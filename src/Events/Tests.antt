-- ===== src/Events/Tests.antt =====
-- The operations of a block on a sample entity.
mod Batches
use pebble_bitmap_store_note.Packages.InMemory.{table_db, list_bitmaps}
use pebble_bitmap_store_note.Index.Attributes.{Indexes}
use pebble_bitmap_store_note.Cache.{flush}
use pebble_bitmap_store_note.Events.Flushed.{KeepsRest}
use pebble_bitmap_store_note.Events.Flushes.{flush-Tracks}
use pebble_bitmap_store_note.Prelude.{
  ◌≡◌, refl, inl, some, [], ◌∷◌, ◌++◌, Bytes, bytes_eq, bytes_lt, codes, ok, arith,
}
use pebble_bitmap_store_note.Packages.InMemory.{Table}
use pebble_bitmap_store_note.Index.Attributes.{Attributes}
use pebble_bitmap_store_note.Payloads.Fresh.{fresh_db}
use pebble_bitmap_store_note.Events.Operations.{
  Cache, apply_create, apply_update, apply_delete, apply_extend_btl, apply_change_owner,
}
use pebble_bitmap_store_note.Events.Tracks.{set_row, set_entity, Tracks}
use pebble_bitmap_store_note.Events.Written.{set_fields}
use pebble_bitmap_store_note.Events.Creates.{create_fields, apply_create-Tracks}
use pebble_bitmap_store_note.Events.Sample.{
  sample_env, sample_env-Runs, sample_key, sample_create, sample_update, lower,
}
use pebble_bitmap_store_note.Payloads.Keys.{without_key}
use pebble_bitmap_store_note.Maps.{get_entry, set_entry, map_index}
use pebble_bitmap_store_note.Events.Given.{
  Managed, given_string, given_number, strings_of, numbers_of, numbers_again, managed_by_create,
  managed_by_update,
}
use pebble_bitmap_store_note.Events.Made.{apply_create-creates, apply_update-updates}
use pebble_bitmap_store_note.Events.Deletes.{apply_delete-Tracks}
use pebble_bitmap_store_note.Events.Moves.{
  extended, owned, apply_extend_btl-Tracks, apply_change_owner-Tracks,
}
use pebble_bitmap_store_note.Events.Sample.Entities.{
  created, created-IsEntity, created_numbers, created_strings, empty_cache, extended-IsEntity,
  fresh-Tracks, no_attributes, no_row, numbers_created, one_row, owned-IsEntity, sample_change,
  sample_extend, strings_created, updated, updated-IsEntity, updated_numbers, updated_strings,
}

abbrev create_given : Managed
create_given = record {
  key = codes "0x" ++ sample_key;
  owner = codes "0xalice";
  creator = codes "0xalice";
  expiration = 15;
  created_at_block = 5;
  last_modified_at_block = 5;
  sequence = 21474836480;
  tx_index = 0;
  op_index = 0;
}

create_given-managed : create_given ≡ managed_by_create sample_env 5 0 0 sample_create
unfolding lower
create_given-managed = refl

created-fields :
    created
    ≡ create_fields sample_env sample_env-Runs sample_create
        (strings_of create_given ((codes "type", codes "note") ∷ []))
        (numbers_of create_given ((codes "level", 3) ∷ []))
unfolding set_entry bytes_eq bytes_lt
created-fields = refl

apply_create-creates_example :
    (d' : Table) × (c' : Cache sample_env) × (apply_create sample_env 5 0 0 sample_create fresh_db
        empty_cache 1
      ≡ (2, ok (d', c')))
    × Tracks sample_env 2 (sample_key ∷ []) one_row d' c' (set_fields no_attributes 1 created)
    × ((name : Bytes)
        → get_entry created_strings name
          ≡ given_string create_given ((codes "type", codes "note") ∷ []) name)
    × ((name : Bytes)
        → get_entry created_numbers name ≡ given_number create_given ((codes "level", 3) ∷ []) name)
apply_create-creates_example =
    apply_create-creates sample_env sample_env-Runs 1 [] no_row fresh_db empty_cache no_attributes 5
      0 0 sample_create ((codes "type", codes "note") ∷ []) ((codes "level", 3) ∷ []) create_given
      created fresh-Tracks refl refl create_given-managed created-fields created-IsEntity
      (omega arith) (λ m. absurd m)

-- The store after `Create`.
after_create :
    (d' : Table) × (c' : Cache sample_env) × (apply_create sample_env 5 0 0 sample_create fresh_db
        empty_cache 1
      ≡ (2, ok (d', c')))
    × Tracks sample_env 2 (sample_key ∷ []) one_row d' c' (set_fields no_attributes 1 created)
after_create =
    apply_create-Tracks sample_env sample_env-Runs 1 [] no_row fresh_db empty_cache no_attributes 5
      0 0 sample_create created_strings created_numbers fresh-Tracks strings_created numbers_created
      created-IsEntity (omega arith) (λ m. absurd m)

abbrev one_db : Table
one_db = after_create.0

abbrev one_cache : Cache sample_env
one_cache = after_create.1

abbrev one_attributes : Attributes
one_attributes = set_fields no_attributes 1 created

one-Tracks : Tracks sample_env 2 (sample_key ∷ []) one_row one_db one_cache one_attributes
one-Tracks = after_create.3

abbrev update_given : Managed
update_given = record {
  key = codes "0x" ++ sample_key;
  owner = codes "0xbob";
  creator = codes "0xalice";
  expiration = 27;
  created_at_block = 5;
  last_modified_at_block = 7;
  sequence = 21474836480;
  tx_index = 0;
  op_index = 0;
}

update_given-managed :
    update_given
    ≡ managed_by_update sample_env 7 (some created_strings) (some created_numbers) sample_update
unfolding lower map_index bytes_eq
update_given-managed = refl

updated-fields :
    updated
    ≡ create_fields sample_env sample_env-Runs sample_update
        (strings_of update_given ((codes "type", codes "letter") ∷ []))
        (numbers_again update_given [])
unfolding set_entry bytes_eq bytes_lt
updated-fields = refl

apply_update-updates_example :
    (d' : Table) × (c' : Cache sample_env) × (apply_update sample_env 7 sample_update one_db
        one_cache 2
      ≡ (2, ok (d', c')))
    × Tracks sample_env 2
        (sample_key ∷ [])
        (set_row one_row sample_key (record { id = 1; fields = updated }))
        d'
        c'
        (set_fields one_attributes 1 updated)
    × ((name : Bytes)
        → get_entry updated_strings name
          ≡ given_string update_given ((codes "type", codes "letter") ∷ []) name)
    × ((name : Bytes) → get_entry updated_numbers name ≡ given_number update_given [] name)
unfolding bytes_eq
apply_update-updates_example =
    apply_update-updates sample_env sample_env-Runs 2 (sample_key ∷ []) one_row one_db one_cache
      one_attributes 7 sample_update ((codes "type", codes "letter") ∷ []) [] update_given updated
      one-Tracks (inl refl) refl refl update_given-managed updated-fields updated-IsEntity

apply_delete-Tracks_example :
    (d' : Table) × (c' : Cache sample_env) × (apply_delete sample_env sample_key one_db one_cache 2
      ≡ (2, ok (d', c')))
    × Tracks sample_env 2
        (without_key sample_key (sample_key ∷ []))
        one_row
        d'
        c'
        (set_entity one_attributes 1 [] [])
unfolding bytes_eq
apply_delete-Tracks_example =
    apply_delete-Tracks sample_env sample_env-Runs 2 (sample_key ∷ []) one_row one_db one_cache
      one_attributes sample_key one-Tracks (inl refl)

apply_extend_btl-Tracks_example :
    (d' : Table) × (c' : Cache sample_env) × (apply_extend_btl sample_env sample_extend one_db
        one_cache 2
      ≡ (2, ok (d', c')))
    × Tracks sample_env 2
        (sample_key ∷ [])
        (set_row one_row sample_key
          (record { id = 1; fields = (extended sample_env sample_env-Runs sample_extend created) }))
        d'
        c'
        (set_fields one_attributes 1 (extended sample_env sample_env-Runs sample_extend created))
unfolding bytes_eq
apply_extend_btl-Tracks_example =
    apply_extend_btl-Tracks sample_env sample_env-Runs 2 (sample_key ∷ []) one_row one_db one_cache
      one_attributes sample_extend one-Tracks (inl refl) extended-IsEntity

apply_change_owner-Tracks_example :
    (d' : Table) × (c' : Cache sample_env) × (apply_change_owner sample_env sample_change one_db
        one_cache 2
      ≡ (2, ok (d', c')))
    × Tracks sample_env 2
        (sample_key ∷ [])
        (set_row one_row sample_key
          (record { id = 1; fields = (owned sample_env sample_env-Runs sample_change created) }))
        d'
        c'
        (set_fields one_attributes 1 (owned sample_env sample_env-Runs sample_change created))
unfolding bytes_eq
apply_change_owner-Tracks_example =
    apply_change_owner-Tracks sample_env sample_env-Runs 2 (sample_key ∷ []) one_row one_db
      one_cache one_attributes sample_change one-Tracks (inl refl) owned-IsEntity

flush-Tracks_example :
    (d' : Table) × (flush table_db list_bitmaps one_cache one_db ≡ ok d')
    × Tracks sample_env 2 (sample_key ∷ []) one_row d' empty_cache one_attributes
    × Indexes table_db list_bitmaps d' one_attributes
    × KeepsRest sample_env sample_env-Runs one_db d'
flush-Tracks_example =
    flush-Tracks sample_env sample_env-Runs 2 (sample_key ∷ []) one_row one_db one_cache
      one_attributes one-Tracks
