-- ===== src/Events/Tracks.antt =====
-- What holds of the batch and the cache between two operations: the entities and their rows, and
-- the index of their attributes.
use pebble_bitmap_store_note.Prelude.{
  ℕ, ◌≡◌, ◌≤◌, ◌↔◌, ◌==◌, Option, none, some, ◌∷◌, In, List, Bytes, bytes_eq, length, ok, Ok,
  if◌then◌else◌,
}
use pebble_bitmap_store_note.Packages.PebbleDb.{Reliable}
use pebble_bitmap_store_note.Encoding.Keys.{
  string_bitmap_key, numeric_bitmap_key, prefix_string_bitmap, prefix_numeric_bitmap,
}
use pebble_bitmap_store_note.Index.Attributes.{Attributes, passes, FitsString, FitsNumber}
use pebble_bitmap_store_note.Evaluate.Total.Scans.{Serves}
use pebble_bitmap_store_note.Maps.{Entries, GoMap, attributes_json, map_entries, get_entry}
use pebble_bitmap_store_note.Maps.Laws.{IsMap}
use pebble_bitmap_store_note.Payloads.Consistent.{Consistent}
use pebble_bitmap_store_note.Payloads.Record.RoundTrip.{Encodable}
use pebble_bitmap_store_note.Payloads.Operations.{PayloadRow, get_current_payload_for_entity_key}
use pebble_bitmap_store_note.Events.Operations.{Environment, Db, Cache, EntityFields}
use pebble_bitmap_store_note.Events.Holds.{holds_string, holds_number}
use pebble_bitmap_store_note.Events.Cached.{IsCache}
use pebble_bitmap_store_note.Events.Among.{indexed_number}

-- The attributes with those of one identifier replaced.
abbrev pub set_entity : Attributes → ℕ → Entries Bytes → Entries ℕ → Attributes
set_entity a id strs nums = record {
  strings = λ i n. if id == i then get_entry strs n else a.strings i n;
  numbers = λ i n. if id == i then indexed_number nums n else a.numbers i n;
}

abbrev pub EntityRow : Type 0
EntityRow = PayloadRow (GoMap Bytes) (GoMap ℕ)

abbrev pub set_row : (Bytes → EntityRow) → Bytes → EntityRow → Bytes → EntityRow
set_row rows key row = λ k. if bytes_eq key k then row else rows k

module _ (env : Environment) where
  open env use {pebble, roaring, string_json, number_json, string_range, number_range}

  -- The database serves every call, every bitmap can be written, and a range over a map goes
  -- through its entries, in some order.
  pub record Runs : Type 0 where
    pub reliable : Reliable pebble
    pub scans : (d : Db env) (lower : Bytes) (upper : Option Bytes) → Ok (pebble.scan d lower upper)
    pub writes : (b : roaring.Bitmap) → Ok (roaring.write_to b)
    pub string_range_In :
        (m : Entries Bytes) (kv : Bytes × Bytes) → In kv (string_range m) ↔ In kv m
    pub number_range_In : (m : Entries ℕ) (kv : Bytes × ℕ) → In kv (number_range m) ↔ In kv m

  -- The bitmaps that the database holds can be read, and so can their keys.
  pub record Readable (d : Db env) : Type 0 where
    pub string_bitmaps :
        (n v s : Bytes)
        → pebble.view d (string_bitmap_key n v) ≡ some s
        → Ok (roaring.unmarshal_binary s)
    pub numeric_bitmaps :
        (n : Bytes) (v : ℕ) (s : Bytes)
        → pebble.view d (numeric_bitmap_key n v) ≡ some s
        → Ok (roaring.unmarshal_binary s)
    pub string_keys :
        (k s : Bytes)
        → pebble.view d (prefix_string_bitmap ∷ k) ≡ some s
        → (n v : Bytes) × (prefix_string_bitmap ∷ k ≡ string_bitmap_key n v) × FitsString n v
    pub number_keys :
        (k s : Bytes)
        → pebble.view d (prefix_numeric_bitmap ∷ k) ≡ some s
        → (n : Bytes) × (v : ℕ) × (prefix_numeric_bitmap ∷ k ≡ numeric_bitmap_key n v)
          × FitsNumber n v

  pub Readable-Serves : Runs → (d : Db env) → Readable d → Serves pebble roaring d
  Readable-Serves runs d h = record {
    gets = runs.reliable.gets d;
    scans = runs.scans d;
    string_bitmaps = h.string_bitmaps;
    numeric_bitmaps = h.numeric_bitmaps;
  }

  -- The fields of an entity that can be stored and indexed.
  pub record IsEntity (f : EntityFields env) : Type 0 where
    pub encodable : Encodable (attributes_json string_json) (attributes_json number_json) f
    -- neither map is nil
    pub strings_made : f.str_attrs ≡ some (map_entries f.str_attrs)
    pub numbers_made : f.num_attrs ≡ some (map_entries f.num_attrs)
    pub strings_map : IsMap (map_entries f.str_attrs)
    pub numbers_map : IsMap (map_entries f.num_attrs)
    pub strings_fit :
        (n v : Bytes) → get_entry (map_entries f.str_attrs) n ≡ some v → FitsString n v
    pub numbers_fit :
        (n : Bytes) (v : ℕ) → get_entry (map_entries f.num_attrs) n ≡ some v → FitsNumber n v

  -- A key, what the database has for it, and what the index should.
  pub record HasRow (d : Db env) (a : Attributes) (k : Bytes)
      (row : PayloadRow (GoMap Bytes) (GoMap ℕ)) : Type 0 where
    pub read :
        get_current_payload_for_entity_key pebble
          (attributes_json string_json)
          (attributes_json number_json)
          d
          k
        ≡ ok row
    pub own_key : row.fields.entity_key ≡ k
    pub entity : IsEntity row.fields
    pub strings : (n : Bytes) → a.strings row.id n ≡ get_entry (map_entries row.fields.str_attrs) n
    pub numbers :
        (n : Bytes) → a.numbers row.id n ≡ indexed_number (map_entries row.fields.num_attrs) n

  -- The bitmaps of the cache and the database hold each identifier that has the attribute.
  pub record Holds (d : Db env) (c : Cache env) (a : Attributes) : Type 0 where
    pub strings :
        (i : ℕ) (n v : Bytes)
        → FitsString n v
        → holds_string pebble roaring d c n v i ≡ passes (λ w. bytes_eq w v) (a.strings i n)
    pub numbers :
        (i : ℕ) (n : Bytes) (v : ℕ)
        → FitsNumber n v
        → holds_number pebble roaring d c n v i ≡ passes (λ w. w == v) (a.numbers i n)

  -- The entities are those of `keys`, each with its row of `rows`.
  pub record Tracks (next : ℕ) (keys : List Bytes) (rows : Bytes → EntityRow) (d : Db env)
      (c : Cache env) (a : Attributes) : Type 0 where
    pub consistent : Consistent pebble next keys d
    pub readable : Readable d
    pub cached : IsCache pebble roaring c
    pub holds : Holds d c a
    pub rows_read : (k : Bytes) → In k keys → (length k ≡ 32) × HasRow d a k (rows k)
    pub strings_fit : (i : ℕ) (n v : Bytes) → a.strings i n ≡ some v → FitsString n v
    pub numbers_fit : (i : ℕ) (n : Bytes) (v : ℕ) → a.numbers i n ≡ some v → FitsNumber n v
    -- identifiers not yet given have no attributes
    pub above : (i : ℕ) → next ≤ i → (n : Bytes) → (a.strings i n ≡ none) × (a.numbers i n ≡ none)
