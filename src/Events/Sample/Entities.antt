-- ===== src/Events/Sample/Entities.antt =====
-- Sample entities, and that their fields can be stored.
use pebble_bitmap_store_note.Prelude.{
  ℕ, ◌≡◌, refl, sym, ap, ◌∙◌, inl, inr, none, some, [], ◌∷◌, All, Bytes, bytes_eq, bytes_lt, In,
  codes, ◌++◌, ok, arith, subst,
}
use pebble_bitmap_store_note.Packages.InMemory.{table_db, list_bitmaps, lookup}
use pebble_bitmap_store_note.Encoding.Slices.{slice, slice_from}
use pebble_bitmap_store_note.Encoding.Keys.{string_bitmap_key, numeric_bitmap_key, entity_count_key}
use pebble_bitmap_store_note.Index.Attributes.{Attributes, FitsString, FitsNumber}
use pebble_bitmap_store_note.Index.Bitmaps.Stored.{stored, decoded}
use pebble_bitmap_store_note.Maps.{
  map_index, set_entry, map_assign, unmarshal_json, Entries, get_entry, map_entries,
}
use pebble_bitmap_store_note.Maps.Laws.{get_entry-In}
use pebble_bitmap_store_note.Payloads.Fresh.{fresh_db, none≢some, fresh-Consistent}
use pebble_bitmap_store_note.Events.Attributes.{
  create_strings, create_numbers, update_strings, update_numbers, owner_name, creator_name,
  key_name, expiration_name, created_at_block_name, last_modified_at_block_name, sequence_name,
  tx_index_name, op_index_name,
}
use pebble_bitmap_store_note.Events.Operations.{Cache, EntityFields}
use pebble_bitmap_store_note.Events.Tracks.{EntityRow, set_row, IsEntity, Tracks}
use pebble_bitmap_store_note.Events.Creates.{create_fields}
use pebble_bitmap_store_note.Events.Sample.{
  sample_env, sample_env-Runs, sample_key, sample_create, sample_update, lower, read_entries,
  write_entries, first_of,
}
use pebble_bitmap_store_note.Events.{OpExtendBtl, OpChangeOwner}
use pebble_bitmap_store_note.Cache.Overlay.{find}
use pebble_bitmap_store_note.Events.Moves.{extended, owned}

abbrev pub no_attributes : Attributes
no_attributes = record { strings = λ i n. none; numbers = λ i n. none }

abbrev pub empty_cache : Cache sample_env
empty_cache = record { string_bitmaps = []; numeric_bitmaps = [] }

pub no_string_bitmap : (n v : Bytes) → lookup fresh_db (string_bitmap_key n v) ≡ none
unfolding lookup string_bitmap_key entity_count_key bytes_eq
no_string_bitmap n v = refl

pub no_numeric_bitmap : (n : Bytes) (v : ℕ) → lookup fresh_db (numeric_bitmap_key n v) ≡ none
unfolding lookup numeric_bitmap_key entity_count_key bytes_eq
no_numeric_bitmap n v = refl

-- No entity has this row.
abbrev pub no_row : Bytes → EntityRow
no_row k = record {
  id = 0;
  fields = record {
    entity_key = k;
    content_type = [];
    str_attrs = none;
    num_attrs = none;
    payload = [];
  };
}

pub fresh-Tracks : Tracks sample_env 1 [] no_row fresh_db empty_cache no_attributes
unfolding stored find lookup entity_count_key bytes_eq
fresh-Tracks = record {
  consistent = fresh-Consistent;
  readable = record {
    string_bitmaps = λ n v s h. absurd (none≢some (sym (no_string_bitmap n v) ∙ h));
    numeric_bitmaps = λ n v s h. absurd (none≢some (sym (no_numeric_bitmap n v) ∙ h));
    string_keys = λ k s h. absurd (none≢some h);
    number_keys = λ k s h. absurd (none≢some h);
  };
  cached = (tt, tt);
  holds = record {
    strings = λ i n v fits. ap (λ o. decoded table_db list_bitmaps o i) (no_string_bitmap n v);
    numbers = λ i n v fits. ap (λ o. decoded table_db list_bitmaps o i) (no_numeric_bitmap n v);
  };
  rows_read = λ k m. absurd m;
  strings_fit = λ i n v h. cc;
  numbers_fit = λ i n v h. cc;
  above = λ i h n. (refl, refl);
}

module _ {T : Type 0} (Fits : Bytes → T → Type 0) (n : Bytes) (v : T) where
  in_all : (l : Entries T) → All (λ (kv : Bytes × T). Fits kv.0 kv.1) l → In (n, v) l → Fits n v
  in_all [] h m = absurd m
  in_all ((k, w) ∷ l) h (inl e) = subst (λ (kv : Bytes × T). Fits kv.0 kv.1) (sym e) h.0
  in_all (x ∷ l) h (inr m) = in_all l h.1 m

  all_fit :
      (m : Entries T)
      → All (λ (kv : Bytes × T). Fits kv.0 kv.1) m
      → get_entry m n ≡ some v
      → Fits n v
  all_fit m h e = in_all m h (get_entry-In m n v e)

-- What `Create` gives the entity in block 5.
abbrev pub created_strings : Entries Bytes
created_strings =
    (creator_name, codes "0xalice")
    ∷ (key_name, codes "0x" ++ sample_key)
    ∷ (owner_name, codes "0xalice")
    ∷ (codes "type", codes "note")
    ∷ []

abbrev pub created_numbers : Entries ℕ
created_numbers =
    (created_at_block_name, 5)
    ∷ (expiration_name, 15)
    ∷ (last_modified_at_block_name, 5)
    ∷ (op_index_name, 0)
    ∷ (sequence_name, 21474836480)
    ∷ (tx_index_name, 0)
    ∷ (codes "level", 3)
    ∷ []

pub strings_created :
    create_strings lower sample_env.hash_hex sample_env.address_hex sample_create
    ≡ ok (some created_strings)
unfolding create_strings map_assign bytes_eq bytes_lt lower
strings_created = refl

pub numbers_created : create_numbers 5 0 0 sample_create ≡ ok (some created_numbers)
unfolding create_numbers map_assign bytes_eq bytes_lt
numbers_created = refl

abbrev pub created : EntityFields sample_env
created = create_fields sample_env sample_env-Runs sample_create created_strings created_numbers

pub created-IsEntity : IsEntity sample_env created
unfolding bytes_eq bytes_lt get_entry set_entry unmarshal_json read_entries write_entries slice
    slice_from first_of
created-IsEntity = record {
  encodable = record {
    str_json = _;
    num_json = _;
    wide = refl;
    short = omega arith;
    str_marshal = refl;
    str_unmarshal = refl;
    str_small = omega arith;
    num_marshal = refl;
    num_unmarshal = refl;
    num_small = omega arith;
  };
  strings_made = refl;
  numbers_made = refl;
  strings_map = (refl, (refl, (refl, (refl, tt))));
  numbers_map = (refl, (refl, (refl, (refl, (refl, (refl, (refl, tt)))))));
  strings_fit = λ n v.
      all_fit FitsString n v created_strings
        (omega arith, (omega arith, (omega arith, (omega arith, tt))));
  numbers_fit = λ n v. all_fit FitsNumber n v created_numbers (
    (omega arith, omega arith),
    (
      (omega arith, omega arith),
      (
        (omega arith, omega arith),
        (
          (omega arith, omega arith),
          (
            (omega arith, omega arith),
            ((omega arith, omega arith), ((omega arith, omega arith), tt)),
          ),
        ),
      ),
    ),
  );
}

abbrev pub one_row : Bytes → EntityRow
one_row = set_row no_row sample_key (record { id = 1; fields = created })

abbrev pub updated_strings : Entries Bytes
updated_strings =
    (creator_name, codes "0xalice")
    ∷ (key_name, codes "0x" ++ sample_key)
    ∷ (owner_name, codes "0xbob")
    ∷ (codes "type", codes "letter")
    ∷ []

abbrev pub updated_numbers : Entries ℕ
updated_numbers =
    (created_at_block_name, 5)
    ∷ (expiration_name, 27)
    ∷ (last_modified_at_block_name, 7)
    ∷ (op_index_name, 0)
    ∷ (sequence_name, 21474836480)
    ∷ (tx_index_name, 0)
    ∷ []

pub strings_updated :
    update_strings lower sample_env.hash_hex sample_env.address_hex
      (some created_strings)
      sample_update
    ≡ ok (some updated_strings)
unfolding update_strings map_assign map_index bytes_eq bytes_lt lower
strings_updated = refl

pub numbers_updated :
    update_numbers 7 (some created_numbers) sample_update ≡ ok (some updated_numbers)
unfolding update_numbers map_assign map_index bytes_eq bytes_lt
numbers_updated = refl

abbrev pub updated : EntityFields sample_env
updated = create_fields sample_env sample_env-Runs sample_update updated_strings updated_numbers

pub updated-IsEntity : IsEntity sample_env updated
unfolding bytes_eq bytes_lt get_entry set_entry unmarshal_json read_entries write_entries slice
    slice_from first_of
updated-IsEntity = record {
  encodable = record {
    str_json = _;
    num_json = _;
    wide = refl;
    short = omega arith;
    str_marshal = refl;
    str_unmarshal = refl;
    str_small = omega arith;
    num_marshal = refl;
    num_unmarshal = refl;
    num_small = omega arith;
  };
  strings_made = refl;
  numbers_made = refl;
  strings_map = (refl, (refl, (refl, (refl, tt))));
  numbers_map = (refl, (refl, (refl, (refl, (refl, (refl, tt))))));
  strings_fit = λ n v.
      all_fit FitsString n v updated_strings
        (omega arith, (omega arith, (omega arith, (omega arith, tt))));
  numbers_fit = λ n v. all_fit FitsNumber n v updated_numbers (
    (omega arith, omega arith),
    (
      (omega arith, omega arith),
      (
        (omega arith, omega arith),
        (
          (omega arith, omega arith),
          ((omega arith, omega arith), ((omega arith, omega arith), tt)),
        ),
      ),
    ),
  );
}

abbrev pub sample_extend : OpExtendBtl
sample_extend = record { key = sample_key; btl = 30 }

abbrev pub sample_change : OpChangeOwner
sample_change = record { key = sample_key; owner = codes "CAROL" }

pub extended-IsEntity :
    IsEntity sample_env (extended sample_env sample_env-Runs sample_extend created)
unfolding map_index bytes_eq bytes_lt get_entry set_entry unmarshal_json read_entries write_entries
    slice slice_from first_of
extended-IsEntity = record {
  encodable = record {
    str_json = _;
    num_json = _;
    wide = refl;
    short = omega arith;
    str_marshal = refl;
    str_unmarshal = refl;
    str_small = omega arith;
    num_marshal = refl;
    num_unmarshal = refl;
    num_small = omega arith;
  };
  strings_made = refl;
  numbers_made = refl;
  strings_map = (refl, (refl, (refl, (refl, tt))));
  numbers_map = (refl, (refl, (refl, (refl, (refl, (refl, (refl, tt)))))));
  strings_fit = λ n v.
      all_fit FitsString n v created_strings
        (omega arith, (omega arith, (omega arith, (omega arith, tt))));
  numbers_fit = λ n v.
      all_fit FitsNumber n v
        (map_entries (extended sample_env sample_env-Runs sample_extend created).num_attrs)
        (
          (omega arith, omega arith),
          (
            (omega arith, omega arith),
            (
              (omega arith, omega arith),
              (
                (omega arith, omega arith),
                (
                  (omega arith, omega arith),
                  ((omega arith, omega arith), ((omega arith, omega arith), tt)),
                ),
              ),
            ),
          ),
        );
}

pub owned-IsEntity : IsEntity sample_env (owned sample_env sample_env-Runs sample_change created)
unfolding lower bytes_eq bytes_lt get_entry set_entry unmarshal_json read_entries write_entries
    slice slice_from first_of
owned-IsEntity = record {
  encodable = record {
    str_json = _;
    num_json = _;
    wide = refl;
    short = omega arith;
    str_marshal = refl;
    str_unmarshal = refl;
    str_small = omega arith;
    num_marshal = refl;
    num_unmarshal = refl;
    num_small = omega arith;
  };
  strings_made = refl;
  numbers_made = refl;
  strings_map = (refl, (refl, (refl, (refl, tt))));
  numbers_map = (refl, (refl, (refl, (refl, (refl, (refl, (refl, tt)))))));
  strings_fit = λ n v.
      all_fit FitsString n v
        (map_entries (owned sample_env sample_env-Runs sample_change created).str_attrs)
        (omega arith, (omega arith, (omega arith, (omega arith, tt))));
  numbers_fit = λ n v. all_fit FitsNumber n v created_numbers (
    (omega arith, omega arith),
    (
      (omega arith, omega arith),
      (
        (omega arith, omega arith),
        (
          (omega arith, omega arith),
          (
            (omega arith, omega arith),
            ((omega arith, omega arith), ((omega arith, omega arith), tt)),
          ),
        ),
      ),
    ),
  );
}
