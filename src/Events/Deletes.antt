-- ===== src/Events/Deletes.antt =====
-- `Delete` and `Expire` between two operations of a batch.
use pebble_bitmap_store_note.Prelude.{
  ℕ, ◌≡◌, refl, sym, ◌==◌, Option, none, some, [], List, In, Bytes, ok, arith,
}
use pebble_bitmap_store_note.Index.Attributes.{Attributes, FitsString, FitsNumber}
use pebble_bitmap_store_note.Maps.{attributes_json, map_entries, get_entry}
use pebble_bitmap_store_note.Payloads.Keys.{without_key, In-without_key}
use pebble_bitmap_store_note.Payloads.Deletes.{delete_payload_for_entity_key-removes}
use pebble_bitmap_store_note.Events.Operations.{Environment, Db, Cache, EntityFields, apply_delete}
use pebble_bitmap_store_note.Events.Tracks.{EntityRow, set_entity, Runs, Tracks}
use pebble_bitmap_store_note.Events.Reindex.{remove_entity}
use pebble_bitmap_store_note.Events.Written.{kept-Readable, kept-Holds, other-HasRow, not_equal}
use pebble_bitmap_store_note.Events.Creates.{fits_after, indexed_fits}
use pebble_bitmap_store_note.Events.Existing.{row-current, rows_apart}

none≢some : {V : Type 0} {v : V} → ◌≡◌ {A = Option V} none (some v) → ⊥
none≢some q = cc

module _ (env : Environment) (runs : Runs env) where
  open env use {pebble, roaring, string_json, number_json}

  -- While the packages serve every call, deleting an entity that is there succeeds: the rows and
  -- the index are those of the other entities, and the identifier counter stays.
  pub apply_delete-Tracks :
      (next : ℕ) (keys : List Bytes) (rows : Bytes → EntityRow) (d : Db env) (c : Cache env)
      (a : Attributes) (key : Bytes)
      → Tracks env next keys rows d c a
      → In key keys
      → (d' : Db env) × (c' : Cache env) × (apply_delete env key d c next ≡ (next, ok (d', c')))
        × Tracks env next (without_key key keys) rows d' c' (set_entity a (rows key).id [] [])
  unfolding apply_delete get_entry
  apply_delete-Tracks next keys rows d c a key t there =
      let row : EntityRow = rows key in
      let (wide, h) = t.rows_read key there in
      let old : EntityFields env = row.fields in
      let (c1, c2, e1, e2, holds, cached) =
        remove_entity env runs d t.readable row.id (map_entries old.str_attrs)
          (map_entries old.num_attrs) h.entity.strings_map h.entity.numbers_map h.entity.strings_fit
          h.entity.numbers_fit c a t.holds t.cached (λ n. (h.strings n, h.numbers n)) in
      let (d', deleted, consistent, gone, keeps, strings_kept, numbers_kept) =
        delete_payload_for_entity_key-removes pebble (attributes_json string_json)
          (attributes_json number_json) runs.reliable next keys d key t.consistent wide there in
      (
        d',
        c2,
        rw (apply_delete, h.read, e1, e2, deleted) refl,
        record {
          consistent = consistent;
          readable = kept-Readable env d d' strings_kept numbers_kept t.readable;
          cached = cached;
          holds =
              kept-Holds env d d' strings_kept numbers_kept c2 (set_entity a row.id [] []) holds;
          rows_read = λ k m.
              let (m', differ) = In-without_key key k keys t.consistent.unique m in
              let (wide', h') = t.rows_read k m' in
              let row' : EntityRow = rows k in
              (
                wide',
                other-HasRow env runs d d' a row.id [] [] k row' h'
                    (rows_apart env runs next keys rows d c a t key k row row' wide wide' h h'
                      (λ e. differ (sym e)))
                    (keeps k wide' differ),
              );
          strings_fit = λ i n.
              fits_after (FitsString n) (row.id == i) _ _ (λ v e. absurd (none≢some e))
                (t.strings_fit i n);
          numbers_fit = λ i n.
              fits_after (FitsNumber n) (row.id == i) _ _
                (indexed_fits (FitsNumber n) [] n (λ v e. absurd (none≢some e)))
                (t.numbers_fit i n);
          above = λ i below n.
              let used = (row-current env runs next keys rows d c a t key row wide h).1 in
              rw (not_equal row.id i (λ e. omega arith)) (t.above i below n);
        },
      )
