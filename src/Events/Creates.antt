-- ===== src/Events/Creates.antt =====
-- `Create` between two operations of a batch.
use pebble_bitmap_store_note.Prelude.{
  ℕ, ◌≡◌, ◌<◌, ◌+◌, inl, inr, refl, sym, subst, Bool, true, false, ◌==◌, Option, none, some, ◌∷◌,
  In, List, Bytes, bytes_eq, bytes_eq_iff, bytes_eq_refl, length, ok, if◌then◌else◌, arith,
  Bool-cases, Option-cases,
}
use pebble_bitmap_store_note.Index.Attributes.{Attributes, FitsString, FitsNumber}
use pebble_bitmap_store_note.Maps.{Entries, attributes_json, map_entries, get_entry}
use pebble_bitmap_store_note.Payloads.Consistent.{current}
use pebble_bitmap_store_note.Payloads.Reads.{current-row}
use pebble_bitmap_store_note.Payloads.Upserts.{Stores, upsert_payload-new}
use pebble_bitmap_store_note.Events.{OpCreate}
use pebble_bitmap_store_note.Events.Attributes.{create_strings, create_numbers}
use pebble_bitmap_store_note.Events.Operations.{Environment, Db, Cache, EntityFields, apply_create}
use pebble_bitmap_store_note.Events.Among.{indexed_number}
use pebble_bitmap_store_note.Events.Tracks.{set_row, EntityRow, Runs, IsEntity, HasRow, Tracks}
use pebble_bitmap_store_note.Events.Reindex.{add_entity}
use pebble_bitmap_store_note.Events.Written.{
  set_fields, kept-Readable, kept-Holds, other-HasRow, own-HasRow, not_equal,
}

-- The value of an attribute after an entity has been set.
pub fits_after :
    {V : Type 0} (Fits : V → Type 0) (t : Bool) (new old : Option V)
    → ((v : V) → new ≡ some v → Fits v)
    → ((v : V) → old ≡ some v → Fits v)
    → (v : V) → (if t then new else old) ≡ some v
    → Fits v
fits_after Fits true new old h k v e = h v e
fits_after Fits false new old h k v e = k v e

pub indexed_fits :
    (f : ℕ → Type 0) (nums : Entries ℕ) (n : Bytes)
    → ((v : ℕ) → get_entry nums n ≡ some v → f v)
    → (v : ℕ) → indexed_number nums n ≡ some v
    → f v
indexed_fits f nums n h v e = in_branch _ e
  where
    in_branch : (t : Bool) → (if t then none else get_entry nums n) ≡ some v → f v
    in_branch true q = cc
    in_branch false q = h v q

key_apart : (k j : Bytes) → (k ≡ j → ⊥) → bytes_eq k j ≡ false
key_apart k j differ = elim (Bool-cases (bytes_eq k j)) [
  | inl e ↦ absurd (differ ((bytes_eq_iff k j).0 e))
  | inr e ↦ e
]

module _ (env : Environment) (runs : Runs env) where
  open env use {pebble, string_json, number_json, to_lower, hash_hex, address_hex}

  -- The fields that `Create` stores.
  abbrev pub create_fields : OpCreate → Entries Bytes → Entries ℕ → EntityFields env
  create_fields create strs nums = record {
    entity_key = create.key;
    content_type = create.content_type;
    str_attrs = some strs;
    num_attrs = some nums;
    payload = create.content;
  }

  created_rows :
      (next : ℕ) (keys : List Bytes) (rows : Bytes → EntityRow) (d d' : Db env) (c : Cache env)
      (a : Attributes) (f : EntityFields env)
      → Tracks env next keys rows d c a
      → Stores pebble
          (attributes_json string_json)
          (attributes_json number_json)
          runs.reliable
          d
          d'
          next
          f
      → IsEntity env f
      → (In f.entity_key keys → ⊥)
      → (k : Bytes) → In k (f.entity_key ∷ keys)
      → (length k ≡ 32)
        × HasRow env d'
            (set_fields a next f)
            k
            (set_row rows f.entity_key (record { id = next; fields = f }) k)
  created_rows next keys rows d d' c a f t stores entity new k (inl e) =
      subst
        (λ x.
          (length x ≡ 32)
          × HasRow env d' (set_fields a next f) x
              (set_row rows f.entity_key (record { id = next; fields = f }) x))
        (sym e)
        (
          entity.encodable.wide,
          rw (bytes_eq_refl f.entity_key) (own-HasRow env runs d d' a next f entity stores),
        )
  created_rows next keys rows d d' c a f t stores entity new k (inr m) =
      let (wide, h) = t.rows_read k m in
      let row : EntityRow = rows k in
      let (_, below) =
        current-row pebble (attributes_json string_json) (attributes_json number_json) runs.reliable
          next keys d k row t.consistent wide h.read in
      rw (key_apart f.entity_key k (λ e. new (subst (λ x. In x keys) (sym e) m))) (
        wide,
        other-HasRow env runs d d' a next (map_entries f.str_attrs) (map_entries f.num_attrs) k row
            h (λ e. omega arith) (stores.keeps k wide (λ e. new (subst (λ x. In x keys) e m))),
      )

  -- While the packages serve every call, creating an entity that is not there succeeds where its
  -- attribute maps are made and can be stored: it takes the next identifier, and the rows and the
  -- index are those of the entities with the new one.
  pub apply_create-Tracks :
      (next : ℕ) (keys : List Bytes) (rows : Bytes → EntityRow) (d : Db env) (c : Cache env)
      (a : Attributes) (number tx_index op_index : ℕ) (create : OpCreate) (strs : Entries Bytes)
      (nums : Entries ℕ)
      → Tracks env next keys rows d c a
      → create_strings to_lower hash_hex address_hex create ≡ ok (some strs)
      → create_numbers number tx_index op_index create ≡ ok (some nums)
      → IsEntity env (create_fields create strs nums)
      → next + 1 < 18446744073709551616
      → (In create.key keys → ⊥)
      → (d' : Db env) × (c' : Cache env) × (apply_create env number tx_index op_index create d c
            next
          ≡ (next + 1, ok (d', c')))
        × Tracks env
            (next + 1)
            (create.key ∷ keys)
            (set_row rows create.key
              (record { id = next; fields = create_fields create strs nums }))
            d'
            c'
            (set_fields a next (create_fields create strs nums))
  unfolding apply_create
  apply_create-Tracks next keys rows d c a number tx_index op_index create strs nums t es en entity
        room new =
      let f : EntityFields env = create_fields create strs nums in
      let absent : current pebble d create.key ≡ none =
        elim (Option-cases (current pebble d create.key)) [
          | inl e ↦ e
          | inr there ↦ absurd (new ((t.consistent.listed create.key).1 there))
        ] in
      let (d', upserted, consistent, stores) =
        upsert_payload-new pebble (attributes_json string_json) (attributes_json number_json)
          runs.reliable next keys d f t.consistent entity.encodable room absent in
      let readable = kept-Readable env d d' stores.strings_kept stores.numbers_kept t.readable in
      let (c1, c2, e1, e2, holds, cached) =
        add_entity env runs d' readable next strs nums entity.strings_map entity.numbers_map
          entity.strings_fit entity.numbers_fit c a
          (kept-Holds env d d' stores.strings_kept stores.numbers_kept c a t.holds) t.cached
          (λ n. t.above next (omega arith) n) in
      (
        d',
        c2,
        rw (apply_create, es, en, upserted, e1, e2) refl,
        record {
          consistent = consistent;
          readable = readable;
          cached = cached;
          holds = holds;
          rows_read = created_rows next keys rows d d' c a f t stores entity new;
          strings_fit = λ i n.
              fits_after (FitsString n) (next == i) _ _ (entity.strings_fit n) (t.strings_fit i n);
          numbers_fit = λ i n.
              fits_after (FitsNumber n) (next == i) _ _
                (indexed_fits (FitsNumber n) nums n (entity.numbers_fit n)) (t.numbers_fit i n);
          above = λ i h n. rw (not_equal next i (λ e. omega arith)) (t.above i (omega arith) n);
        },
      )
