-- ===== src/Events/Written.antt =====
-- What an upsert of an entity does to the rows, the index and the attributes.
use pebble_bitmap_store_note.Prelude.{
  ℕ, ◌≡◌, inl, inr, refl, sym, ap, ◌∙◌, true, false, ◌==◌, ==_iff, ◌∷◌, Bytes, bytes_eq, Bool-cases,
}
use pebble_bitmap_store_note.Encoding.Keys.{
  string_bitmap_key, numeric_bitmap_key, prefix_string_bitmap, prefix_numeric_bitmap,
}
use pebble_bitmap_store_note.Index.Attributes.{Attributes}
use pebble_bitmap_store_note.Index.Bitmaps.Stored.{stored, decoded}
use pebble_bitmap_store_note.Maps.{Entries, GoMap, attributes_json, map_entries}
use pebble_bitmap_store_note.Cache.Changes.{in_cache}
use pebble_bitmap_store_note.Cache.Overlay.{find, same_number}
use pebble_bitmap_store_note.Payloads.Operations.{PayloadRow, get_current_payload_for_entity_key}
use pebble_bitmap_store_note.Payloads.Upserts.{Stores}
use pebble_bitmap_store_note.Payloads.Record.{Fields}
use pebble_bitmap_store_note.Events.Operations.{Environment, Db, Cache, EntityFields}
use pebble_bitmap_store_note.Events.Tracks.{set_entity, Runs, Readable, IsEntity, HasRow, Holds}

-- The attributes with those that the fields of an entity have.
abbrev pub set_fields : Attributes → ℕ → Fields (GoMap Bytes) (GoMap ℕ) → Attributes
set_fields a id f = set_entity a id (map_entries f.str_attrs) (map_entries f.num_attrs)

module _ (env : Environment) (d d' : Db env)
    (strings_kept : (k : Bytes)
      → env.pebble.view d' (prefix_string_bitmap ∷ k)
        ≡ env.pebble.view d (prefix_string_bitmap ∷ k))
    (numbers_kept : (k : Bytes)
      → env.pebble.view d' (prefix_numeric_bitmap ∷ k)
        ≡ env.pebble.view d (prefix_numeric_bitmap ∷ k)) where
  open env use {pebble, roaring}

  string_key_kept :
      (n v : Bytes) → pebble.view d' (string_bitmap_key n v) ≡ pebble.view d (string_bitmap_key n v)
  unfolding string_bitmap_key
  string_key_kept n v = strings_kept _

  numeric_key_kept :
      (n : Bytes) (v : ℕ)
      → pebble.view d' (numeric_bitmap_key n v) ≡ pebble.view d (numeric_bitmap_key n v)
  unfolding numeric_bitmap_key
  numeric_key_kept n v = numbers_kept _

  pub kept-Readable : Readable env d → Readable env d'
  kept-Readable h = record {
    string_bitmaps = λ n v s e. h.string_bitmaps n v s (sym (string_key_kept n v) ∙ e);
    numeric_bitmaps = λ n v s e. h.numeric_bitmaps n v s (sym (numeric_key_kept n v) ∙ e);
    string_keys = λ k s e. h.string_keys k s (sym (strings_kept k) ∙ e);
    number_keys = λ k s e. h.number_keys k s (sym (numbers_kept k) ∙ e);
  }

  pub kept-Holds : (c : Cache env) (a : Attributes) → Holds env d c a → Holds env d' c a
  unfolding stored
  kept-Holds c a h = record {
    strings = λ i n v fits.
        ap
          (λ o.
            in_cache roaring (find bytes_eq c.string_bitmaps n v) (decoded pebble roaring o i) i)
          (string_key_kept n v)
        ∙ h.strings i n v fits;
    numbers = λ i n v fits.
        ap
          (λ o.
            in_cache roaring (find same_number c.numeric_bitmaps n v) (decoded pebble roaring o i)
              i)
          (numeric_key_kept n v)
        ∙ h.numbers i n v fits;
  }

pub not_equal : (i j : ℕ) → (i ≡ j → ⊥) → (i == j) ≡ false
not_equal i j differ = elim (Bool-cases (i == j)) [
  | inl e ↦ absurd (differ ((==_iff i j).0 e))
  | inr e ↦ e
]

pub equal : (i : ℕ) → (i == i) ≡ true
equal i = (==_iff i i).1 refl

module _ (env : Environment) (runs : Runs env) where
  open env use {pebble, string_json, number_json}

  -- A row whose identifier is not the one that changes.
  pub other-HasRow :
      (d d' : Db env) (a : Attributes) (id : ℕ) (strs : Entries Bytes) (nums : Entries ℕ)
      (k : Bytes) (row : PayloadRow (GoMap Bytes) (GoMap ℕ))
      → HasRow env d a k row
      → (id ≡ row.id → ⊥)
      → get_current_payload_for_entity_key pebble
          (attributes_json string_json)
          (attributes_json number_json)
          d'
          k
        ≡ get_current_payload_for_entity_key pebble
            (attributes_json string_json)
            (attributes_json number_json)
            d
            k
      → HasRow env d' (set_entity a id strs nums) k row
  other-HasRow d d' a id strs nums k row h differ same = record {
    read = same ∙ h.read;
    own_key = h.own_key;
    entity = h.entity;
    strings = λ n. rw (not_equal id row.id differ) (h.strings n);
    numbers = λ n. rw (not_equal id row.id differ) (h.numbers n);
  }

  -- The row that was written.
  pub own-HasRow :
      (d d' : Db env) (a : Attributes) (id : ℕ) (f : EntityFields env)
      → IsEntity env f
      → Stores pebble
          (attributes_json string_json)
          (attributes_json number_json)
          runs.reliable
          d
          d'
          id
          f
      → HasRow env d' (set_fields a id f) f.entity_key (record { id = id; fields = f })
  own-HasRow d d' a id f entity stores = record {
    read = stores.reads_back;
    own_key = refl;
    entity = entity;
    strings = λ n. rw (equal id) refl;
    numbers = λ n. rw (equal id) refl;
  }
