-- ===== src/Events/Existing.antt =====
-- Writing and deleting an entity that is there.
use pebble_bitmap_store_note.Prelude.{
  ℕ, ◌≡◌, ◌≢◌, ◌<◌, inl, inr, sym, ap, ◌∙◌, subst, true, false, ◌==◌, some, In, List, Bytes,
  bytes_eq, bytes_eq_iff, length, arith, Bool-cases,
}
use pebble_bitmap_store_note.Encoding.Integers.{put_uint64}
use pebble_bitmap_store_note.Index.Attributes.{Attributes, passes, FitsString, FitsNumber}
use pebble_bitmap_store_note.Maps.{attributes_json, map_entries}
use pebble_bitmap_store_note.Payloads.Consistent.{Consistent, current}
use pebble_bitmap_store_note.Payloads.Reads.{current-row}
use pebble_bitmap_store_note.Payloads.Upserts.{Stores}
use pebble_bitmap_store_note.Events.Operations.{Environment, Db, Cache, EntityFields}
use pebble_bitmap_store_note.Events.Tracks.{
  set_row, EntityRow, Runs, IsEntity, HasRow, Holds, Tracks,
}
use pebble_bitmap_store_note.Events.Cached.{IsCache}
use pebble_bitmap_store_note.Events.Creates.{fits_after, indexed_fits}
use pebble_bitmap_store_note.Events.Written.{
  set_fields, kept-Readable, other-HasRow, own-HasRow, not_equal,
}

-- Attributes that are the same everywhere are indexed alike.
pub Holds-same :
    (env : Environment) (d : Db env) (c : Cache env) (a a' : Attributes)
    → ((i : ℕ) (n : Bytes) → a.strings i n ≡ a'.strings i n)
    → ((i : ℕ) (n : Bytes) → a.numbers i n ≡ a'.numbers i n)
    → Holds env d c a
    → Holds env d c a'
Holds-same env d c a a' strs nums h = record {
  strings = λ i n v fits. h.strings i n v fits ∙ ap (passes (λ w. bytes_eq w v)) (strs i n);
  numbers = λ i n v fits. h.numbers i n v fits ∙ ap (passes (λ w. w == v)) (nums i n);
}

module _ (env : Environment) (runs : Runs env) (next : ℕ) (keys : List Bytes)
    (rows : Bytes → EntityRow) (d : Db env) (c : Cache env) (a : Attributes)
    (t : Tracks env next keys rows d c a) where
  open env use {pebble, string_json, number_json}

  abbrev Row : Type 0
  Row = EntityRow

  pub row-current :
      (k : Bytes) (row : Row)
      → length k ≡ 32
      → HasRow env d a k row
      → (current pebble d k ≡ some (put_uint64 row.id)) × (row.id < next)
  row-current k row wide h =
      current-row pebble (attributes_json string_json) (attributes_json number_json) runs.reliable
        next keys d k row t.consistent wide h.read

  -- Two entities have two identifiers.
  pub rows_apart :
      (k j : Bytes) (row row' : Row)
      → length k ≡ 32
      → length j ≡ 32
      → HasRow env d a k row
      → HasRow env d a j row'
      → k ≢ j
      → row.id ≡ row'.id
      → ⊥
  rows_apart k j row row' wide wide' h h' differ same = differ (
      t.consistent.apart k j (put_uint64 row.id) (row-current k row wide h).0
        ((row-current j row' wide' h').0 ∙ ap (λ i. some (put_uint64 i)) (sym same)))

  -- The rows after an upsert of the entity `key`.
  existing_rows :
      (d' : Db env) (key : Bytes) (row : Row) (f : EntityFields env)
      → HasRow env d a key row
      → IsEntity env f
      → f.entity_key ≡ key
      → length key ≡ 32
      → Stores pebble
          (attributes_json string_json)
          (attributes_json number_json)
          runs.reliable
          d
          d'
          row.id
          f
      → (k : Bytes) → In k keys
      → (length k ≡ 32)
        × HasRow env d'
            (set_fields a row.id f)
            k
            (set_row rows key (record { id = row.id; fields = f }) k)
  existing_rows d' key row f h entity own wide stores k m = elim (Bool-cases (bytes_eq key k)) [
    | inl same ↦
        let here : f.entity_key ≡ k = own ∙ (bytes_eq_iff key k).0 same in
        rw same (
          subst
            (λ x.
              (length x ≡ 32)
              × HasRow env d' (set_fields a row.id f) x (record { id = row.id; fields = f }))
            here (entity.encodable.wide, own-HasRow env runs d d' a row.id f entity stores))
    | inr other ↦
        let differ : k ≢ key = λ e. true≢false (sym ((bytes_eq_iff key k).1 (sym e)) ∙ other) in
        let (wide', h') = t.rows_read k m in
        rw other (
          wide',
          other-HasRow env runs d d' a row.id (map_entries f.str_attrs) (map_entries f.num_attrs) k
              (rows k) h' (rows_apart key k row (rows k) wide wide' h h' (λ e. differ (sym e)))
              (stores.keeps k wide' (λ e. differ (e ∙ own))),
        )
  ]
    where
      true≢false : true ≡ false → ⊥
      true≢false q = cc

  -- An upsert of an entity that is there, once the cache follows.
  pub existing-Tracks :
      (d' : Db env) (c' : Cache env) (key : Bytes) (row : Row) (f : EntityFields env)
      → HasRow env d a key row
      → IsEntity env f
      → f.entity_key ≡ key
      → length key ≡ 32
      → Consistent pebble next keys d'
      → Stores pebble
          (attributes_json string_json)
          (attributes_json number_json)
          runs.reliable
          d
          d'
          row.id
          f
      → Holds env d' c' (set_fields a row.id f)
      → IsCache pebble env.roaring c'
      → Tracks env next keys
          (set_row rows key (record { id = row.id; fields = f }))
          d'
          c'
          (set_fields a row.id f)
  existing-Tracks d' c' key row f h entity own wide consistent stores holds cached = record {
    consistent = consistent;
    readable = kept-Readable env d d' stores.strings_kept stores.numbers_kept t.readable;
    cached = cached;
    holds = holds;
    rows_read = existing_rows d' key row f h entity own wide stores;
    strings_fit = λ i n.
        fits_after (FitsString n) (row.id == i) _ _ (entity.strings_fit n) (t.strings_fit i n);
    numbers_fit = λ i n.
        fits_after (FitsNumber n) (row.id == i) _ _
          (indexed_fits (FitsNumber n) (map_entries f.num_attrs) n (entity.numbers_fit n))
          (t.numbers_fit i n);
    above = λ i below n.
        let used = (row-current key row wide h).1 in
        rw (not_equal row.id i (λ e. omega arith)) (t.above i below n);
  }
