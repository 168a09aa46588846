-- ===== src/Events/Updates.antt =====
-- `Update` between two operations of a batch.
use pebble_bitmap_store_note.Prelude.{
  ℕ, In, ◌≡◌, ◌<◌, refl, Bool, true, false, ◌==◌, Option, some, [], List, Bytes, ok, if◌then◌else◌,
  arith,
}
use pebble_bitmap_store_note.Index.Attributes.{Attributes}
use pebble_bitmap_store_note.Maps.{Entries, attributes_json, map_entries, get_entry}
use pebble_bitmap_store_note.Payloads.Upserts.{upsert_payload-existing}
use pebble_bitmap_store_note.Events.{OpUpdate}
use pebble_bitmap_store_note.Events.Attributes.{update_strings, update_numbers}
use pebble_bitmap_store_note.Events.Operations.{Environment, Db, Cache, EntityFields, apply_update}
use pebble_bitmap_store_note.Events.Tracks.{EntityRow, set_row, set_entity, Runs, IsEntity, Tracks}
use pebble_bitmap_store_note.Events.Reindex.{add_entity, remove_entity}
use pebble_bitmap_store_note.Events.Written.{set_fields, kept-Readable, kept-Holds, equal}
use pebble_bitmap_store_note.Events.Existing.{Holds-same, row-current, existing-Tracks}
use pebble_bitmap_store_note.Events.Creates.{create_fields}

twice :
    {V : Type 0} (t : Bool) (x y z : Option V)
    → (if t then x else (if t then y else z)) ≡ (if t then x else z)
twice true x y z = refl
twice false x y z = refl

module _ (env : Environment) (runs : Runs env) where
  open env use {pebble, roaring, string_json, number_json, to_lower, hash_hex, address_hex}

  -- While the packages serve every call, updating an entity that is there succeeds where its new
  -- attribute maps are made and can be stored: it keeps its identifier, and the rows and the index
  -- are those of the entities with its new fields for its old ones.
  pub apply_update-Tracks :
      (next : ℕ) (keys : List Bytes) (rows : Bytes → EntityRow) (d : Db env) (c : Cache env)
      (a : Attributes) (number : ℕ) (update : OpUpdate) (strs : Entries Bytes) (nums : Entries ℕ)
      → Tracks env next keys rows d c a
      → In update.key keys
      → update_strings to_lower hash_hex address_hex (rows update.key).fields.str_attrs update
        ≡ ok (some strs)
      → update_numbers number (rows update.key).fields.num_attrs update ≡ ok (some nums)
      → IsEntity env (create_fields env runs update strs nums)
      → (d' : Db env) × (c' : Cache env) × (apply_update env number update d c next
          ≡ (next, ok (d', c')))
        × Tracks env next keys
            (set_row rows update.key (record {
              id = (rows update.key).id;
              fields = create_fields env runs update strs nums;
            }))
            d'
            c'
            (set_fields a (rows update.key).id (create_fields env runs update strs nums))
  unfolding apply_update get_entry
  apply_update-Tracks next keys rows d c a number update strs nums t there es en entity =
      let row : EntityRow = rows update.key in
      let (wide, h) = t.rows_read update.key there in
      let f : EntityFields env = create_fields env runs update strs nums in
      let old : EntityFields env = row.fields in
      let (at_key, below) = row-current env runs next keys rows d c a t update.key row wide h in
      let small : row.id < 18446744073709551616 = omega (arith, t.consistent.in_range) in
      let (d', upserted, consistent, stores) =
        upsert_payload-existing pebble (attributes_json string_json) (attributes_json number_json)
          runs.reliable next keys d f row.id t.consistent entity.encodable small at_key in
      let readable = kept-Readable env d d' stores.strings_kept stores.numbers_kept t.readable in
      let (c1, c2, e1, e2, holds, cached) =
        remove_entity env runs d' readable row.id (map_entries old.str_attrs)
          (map_entries old.num_attrs) h.entity.strings_map h.entity.numbers_map h.entity.strings_fit
          h.entity.numbers_fit c a
          (kept-Holds env d d' stores.strings_kept stores.numbers_kept c a t.holds) t.cached
          (λ n. (h.strings n, h.numbers n)) in
      let (c3, c4, e3, e4, holds', cached') =
        add_entity env runs d' readable row.id strs nums entity.strings_map entity.numbers_map
          entity.strings_fit entity.numbers_fit c2 (set_entity a row.id [] []) holds cached
          (λ n. (rw (equal row.id) refl, rw (equal row.id) (ground arith))) in
      (
        d',
        c4,
        rw (apply_update, h.read, es, en, upserted, e1, e2, e3, e4) refl,
        existing-Tracks env runs next keys rows d c a t d' c4 update.key row f h entity refl wide
            consistent stores
            (Holds-same env d' c4 (set_entity (set_entity a row.id [] []) row.id strs nums)
              (set_fields a row.id f) (λ i n. twice (row.id == i) _ _ _)
              (λ i n. twice (row.id == i) _ _ _) holds')
            cached',
      )
