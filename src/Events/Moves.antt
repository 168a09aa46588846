-- ===== src/Events/Moves.antt =====
-- `ExtendBTL` and `ChangeOwner` between two operations of a batch.
use pebble_bitmap_store_note.Prelude.{
  ℕ, In, ◌+◌, ◌≡◌, ◌<◌, refl, sym, ap, ◌∙◌, Bool, true, false, ◌&&◌, ◌||◌, ◌==◌, ==_iff, Option,
  none, some, [], List, Bytes, bytes_eq, bytes_eq_iff, ok, if◌then◌else◌, arith,
}
use pebble_bitmap_store_note.Encoding.Integers.{u64}
use pebble_bitmap_store_note.Index.Attributes.{Attributes, passes, FitsString, FitsNumber}
use pebble_bitmap_store_note.Index.Bitmaps.Stored.{stored}
use pebble_bitmap_store_note.Encoding.Keys.{string_bitmap_key, numeric_bitmap_key}
use pebble_bitmap_store_note.Maps.{
  Entries, attributes_json, map_entries, map_index, map_assign, get_entry, set_entry,
}
use pebble_bitmap_store_note.Maps.Laws.{get_entry-set_entry}
use pebble_bitmap_store_note.Cache.Changes.{
  in_cache, string_bitmap-ChangesString, numeric_bitmap-ChangesNumber,
}
use pebble_bitmap_store_note.Cache.Overlay.{find, same_number}
use pebble_bitmap_store_note.Payloads.Upserts.{upsert_payload-existing}
use pebble_bitmap_store_note.Events.{OpExtendBtl, OpChangeOwner}
use pebble_bitmap_store_note.Events.Attributes.{expiration_name, owner_name, is_not_indexed}
use pebble_bitmap_store_note.Events.Operations.{
  Environment, Db, Cache, EntityFields, apply_extend_btl, apply_change_owner,
}
use pebble_bitmap_store_note.Events.Among.{indexed_number}
use pebble_bitmap_store_note.Events.Cached.{
  add_to_string-IsCache, remove_from_string-IsCache, add_to_numeric-IsCache,
  remove_from_numeric-IsCache,
}
use pebble_bitmap_store_note.Events.Tracks.{
  EntityRow, set_row, Runs, Readable-Serves, IsEntity, Tracks,
}
use pebble_bitmap_store_note.Events.Written.{set_fields, kept-Readable, kept-Holds}
use pebble_bitmap_store_note.Events.Existing.{row-current, existing-Tracks}
use pebble_bitmap_store_note.Events.Moved.{moved}

expiration_shown : is_not_indexed expiration_name ≡ false
unfolding is_not_indexed bytes_eq
expiration_shown = refl

-- An attribute that stays.
stays :
    {V : Type 0} (f : V → Bool) (t : Bool) (was old : Option V) (h : Bool)
    → h ≡ passes f old
    → (t ≡ true → old ≡ was)
    → h ≡ passes f (if t then was else old)
stays f true was old h e same = e ∙ ap (passes f) (same refl)
stays f false was old h e same = e

-- The value of an attribute, or the zero value.
fits_index :
    {V : Type 0} (Fits : V → Type 0) (zero_value : V) (m : Entries V) (k : Bytes)
    → Fits zero_value
    → ((v : V) → get_entry m k ≡ some v → Fits v)
    → Fits (map_index zero_value (some m) k)
unfolding map_index
fits_index {V} Fits zero_value m k base h = in_option (get_entry m k) h
  where
    in_option :
        (o : Option V)
        → ((v : V) → o ≡ some v → Fits v)
        → Fits (elim o as (λ _. V) [ none ↦ zero_value | some v ↦ v ])
    in_option none h = base
    in_option (some v) h = h v refl

set_fits :
    {V : Type 0} (Fits : V → Type 0) (m : Entries V) (k : Bytes) (v : V)
    → ((w : V) → get_entry (set_entry m k v) k ≡ some w → Fits w)
    → Fits v
set_fits Fits m k v h =
    let same : bytes_eq k k ≡ true = (bytes_eq_iff k k).1 refl in
    h v (rw same at (get_entry-set_entry m k v k))

module _ (env : Environment) (runs : Runs env) where
  open env use {pebble, roaring, string_json, number_json, to_lower, address_hex}

  -- The fields after `ExtendBTL`.
  abbrev pub extended : OpExtendBtl → EntityFields env → EntityFields env
  extended extend old = record {
    entity_key = extend.key;
    content_type = old.content_type;
    str_attrs = old.str_attrs;
    num_attrs = some (
        set_entry (map_entries old.num_attrs) expiration_name
          (u64 (map_index 0 old.num_attrs expiration_name + extend.btl)));
    payload = old.payload;
  }

  -- While the packages serve every call, extending an entity that is there succeeds: its
  -- expiration moves on by the blocks given, modulo 2 ^ 64, and all else of the rows and the index
  -- stays.
  pub apply_extend_btl-Tracks :
      (next : ℕ) (keys : List Bytes) (rows : Bytes → EntityRow) (d : Db env) (c : Cache env)
      (a : Attributes) (extend : OpExtendBtl)
      → Tracks env next keys rows d c a
      → In extend.key keys
      → IsEntity env (extended extend (rows extend.key).fields)
      → (d' : Db env) × (c' : Cache env) × (apply_extend_btl env extend d c next
          ≡ (next, ok (d', c')))
        × Tracks env next keys
            (set_row rows extend.key (record {
              id = (rows extend.key).id;
              fields = extended extend (rows extend.key).fields;
            }))
            d'
            c'
            (set_fields a (rows extend.key).id (extended extend (rows extend.key).fields))
  unfolding apply_extend_btl map_assign map_index
  apply_extend_btl-Tracks next keys rows d c a extend t there entity =
      let row : EntityRow = rows extend.key in
      let (wide, h) = t.rows_read extend.key there in
      let f : EntityFields env = extended extend row.fields in
      let nums : Entries ℕ = map_entries row.fields.num_attrs in
      let old : ℕ = map_index 0 row.fields.num_attrs expiration_name in
      let new : ℕ = u64 (old + extend.btl) in
      let assigned : map_assign row.fields.num_attrs expiration_name new
          ≡ ok (some (set_entry nums expiration_name new)) =
        ap (λ m. map_assign m expiration_name new) h.entity.numbers_made in
      let (at_key, below) = row-current env runs next keys rows d c a t extend.key row wide h in
      let small : row.id < 18446744073709551616 = omega (arith, t.consistent.in_range) in
      let (d', upserted, consistent, stores) =
        upsert_payload-existing pebble (attributes_json string_json) (attributes_json number_json)
          runs.reliable next keys d f row.id t.consistent entity.encodable small at_key in
      let readable = kept-Readable env d d' stores.strings_kept stores.numbers_kept t.readable in
      let serves = Readable-Serves env runs d' readable in
      let holds = kept-Holds env d d' stores.strings_kept stores.numbers_kept c a t.holds in
      let (c1, e1, same1, f1) =
        (numeric_bitmap-ChangesNumber pebble roaring d' serves c expiration_name old row.id).1 in
      let (c2, e2, same2, f2) =
        (numeric_bitmap-ChangesNumber pebble roaring d' serves c1 expiration_name new row.id).0 in
      (
        d',
        c2,
        rw (apply_extend_btl, h.read, assigned, upserted, e1, e2) refl,
        existing-Tracks env runs next keys rows d c a t d' c2 extend.key row f h entity refl wide
            consistent stores
            (record {
              strings = λ i n v fits.
                  ap
                    (λ e.
                      in_cache roaring (find bytes_eq e n v)
                        (stored pebble roaring d' (string_bitmap_key n v) i) i)
                    (same2 ∙ same1)
                  ∙ stays (λ w. bytes_eq w v) (row.id == i)
                      (get_entry (map_entries row.fields.str_attrs) n) (a.strings i n) _
                      (holds.strings i n v fits)
                      (λ e. ap (λ j. a.strings j n) (sym ((==_iff row.id i).0 e)) ∙ h.strings n);
              numbers = λ i n v fits.
                  f2 n v i
                  ∙ ap
                      (λ b.
                        if bytes_eq expiration_name n && (new == v) then (row.id == i) || b else b)
                      (f1 n v i)
                  ∙ moved same_number ==_iff is_not_indexed 0 nums expiration_name new
                      expiration_shown (row.id == i) n v (a.numbers i n) _
                      (holds.numbers i n v fits)
                      (λ e. ap (λ j. a.numbers j n) (sym ((==_iff row.id i).0 e)) ∙ h.numbers n);
            })
            (add_to_numeric-IsCache pebble roaring d' c1 c2 expiration_name new row.id
              (set_fits (FitsNumber expiration_name) nums expiration_name new
                (entity.numbers_fit expiration_name))
              (remove_from_numeric-IsCache pebble roaring d' c c1 expiration_name old row.id
                (fits_index (FitsNumber expiration_name) 0 nums expiration_name
                  (omega arith, omega arith) (h.entity.numbers_fit expiration_name))
                t.cached e1)
              e2),
      )

  -- The fields after `ChangeOwner`.
  abbrev pub owned : OpChangeOwner → EntityFields env → EntityFields env
  owned change old = record {
    entity_key = change.key;
    content_type = old.content_type;
    str_attrs =
        some
          (set_entry (map_entries old.str_attrs) owner_name (to_lower (address_hex change.owner)));
    num_attrs = old.num_attrs;
    payload = old.payload;
  }

  -- While the packages serve every call, changing the owner of an entity that is there succeeds:
  -- its owner is the new one, and all else of the rows and the index stays.
  pub apply_change_owner-Tracks :
      (next : ℕ) (keys : List Bytes) (rows : Bytes → EntityRow) (d : Db env) (c : Cache env)
      (a : Attributes) (change : OpChangeOwner)
      → Tracks env next keys rows d c a
      → In change.key keys
      → IsEntity env (owned change (rows change.key).fields)
      → (d' : Db env) × (c' : Cache env) × (apply_change_owner env change d c next
          ≡ (next, ok (d', c')))
        × Tracks env next keys
            (set_row rows change.key (record {
              id = (rows change.key).id;
              fields = owned change (rows change.key).fields;
            }))
            d'
            c'
            (set_fields a (rows change.key).id (owned change (rows change.key).fields))
  unfolding apply_change_owner map_assign map_index
  apply_change_owner-Tracks next keys rows d c a change t there entity =
      let row : EntityRow = rows change.key in
      let (wide, h) = t.rows_read change.key there in
      let f : EntityFields env = owned change row.fields in
      let strs : Entries Bytes = map_entries row.fields.str_attrs in
      let old : Bytes = map_index [] row.fields.str_attrs owner_name in
      let new : Bytes = to_lower (address_hex change.owner) in
      let assigned : map_assign row.fields.str_attrs owner_name new
          ≡ ok (some (set_entry strs owner_name new)) =
        ap (λ m. map_assign m owner_name new) h.entity.strings_made in
      let (at_key, below) = row-current env runs next keys rows d c a t change.key row wide h in
      let small : row.id < 18446744073709551616 = omega (arith, t.consistent.in_range) in
      let (d', upserted, consistent, stores) =
        upsert_payload-existing pebble (attributes_json string_json) (attributes_json number_json)
          runs.reliable next keys d f row.id t.consistent entity.encodable small at_key in
      let readable = kept-Readable env d d' stores.strings_kept stores.numbers_kept t.readable in
      let serves = Readable-Serves env runs d' readable in
      let holds = kept-Holds env d d' stores.strings_kept stores.numbers_kept c a t.holds in
      let (c1, e1, same1, f1) =
        (string_bitmap-ChangesString pebble roaring d' serves c owner_name old row.id).1 in
      let (c2, e2, same2, f2) =
        (string_bitmap-ChangesString pebble roaring d' serves c1 owner_name new row.id).0 in
      (
        d',
        c2,
        rw (apply_change_owner, h.read, assigned, upserted, e1, e2) refl,
        existing-Tracks env runs next keys rows d c a t d' c2 change.key row f h entity refl wide
            consistent stores
            (record {
              strings = λ i n v fits.
                  f2 n v i
                  ∙ ap
                      (λ b.
                        if bytes_eq owner_name n && bytes_eq new v then (row.id == i) || b else b)
                      (f1 n v i)
                  ∙ moved bytes_eq bytes_eq_iff (λ _. false) [] strs owner_name new refl
                      (row.id == i) n v (a.strings i n) _ (holds.strings i n v fits)
                      (λ e. ap (λ j. a.strings j n) (sym ((==_iff row.id i).0 e)) ∙ h.strings n);
              numbers = λ i n v fits.
                  ap
                    (λ e.
                      in_cache roaring (find same_number e n v)
                        (stored pebble roaring d' (numeric_bitmap_key n v) i) i)
                    (same2 ∙ same1)
                  ∙ stays (λ w. w == v) (row.id == i)
                      (indexed_number (map_entries row.fields.num_attrs) n) (a.numbers i n) _
                      (holds.numbers i n v fits)
                      (λ e. ap (λ j. a.numbers j n) (sym ((==_iff row.id i).0 e)) ∙ h.numbers n);
            })
            (add_to_string-IsCache pebble roaring d' c1 c2 owner_name new row.id
              (set_fits (FitsString owner_name) strs owner_name new (entity.strings_fit owner_name))
              (remove_from_string-IsCache pebble roaring d' c c1 owner_name old row.id
                (fits_index (FitsString owner_name) [] strs owner_name (omega arith)
                  (h.entity.strings_fit owner_name))
                t.cached e1)
              e2),
      )
