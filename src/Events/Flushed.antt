-- ===== src/Events/Flushed.antt =====
-- The keys that a flush writes, and what it leaves of the rows.
use pebble_bitmap_store_note.Prelude.{
  ℕ, List, ◌≡◌, refl, sym, ap, ◌∙◌, true, ==_iff, [], ◌∷◌, Bytes, bytes_eq, bytes_eq_iff, Result,
  ok-injective, arith, >>=-cong,
}
use pebble_bitmap_store_note.Encoding.Keys.{
  prefix_last_block, prefix_entity_current, payload_key, entity_count_key, string_bitmap_key,
  numeric_bitmap_key, prefix_string_bitmap, prefix_numeric_bitmap, decode_string_bitmap_key,
  decode_numeric_bitmap_key,
}
use pebble_bitmap_store_note.Encoding.Keys.RoundTrip.{decode_string-key, decode_numeric-key}
use pebble_bitmap_store_note.Encoding.Ranges.{has_prefix}
use pebble_bitmap_store_note.Index.Attributes.{Attributes, FitsString, FitsNumber}
use pebble_bitmap_store_note.Index.Bitmaps.{
  set_string_bitmap, delete_string_bitmap, set_numeric_bitmap, delete_numeric_bitmap,
}
use pebble_bitmap_store_note.Cache.{flush_string_bitmaps, flush_numeric_bitmaps}
use pebble_bitmap_store_note.Cache.Overlay.{Entries, same_number}
use pebble_bitmap_store_note.Cache.Flush.{flush_entries}
use pebble_bitmap_store_note.Maps.{attributes_json}
use pebble_bitmap_store_note.Payloads.Consistent.{Consistent, current}
use pebble_bitmap_store_note.Payloads.Reads.{get_current-others}
use pebble_bitmap_store_note.Events.Cached.{IsCache}
use pebble_bitmap_store_note.Events.Operations.{Environment, Db, Cache}
use pebble_bitmap_store_note.Events.Tracks.{EntityRow, Runs, Readable, Holds, Tracks}

pub string_key-injective :
    (n m v w : Bytes)
    → FitsString n v
    → FitsString m w
    → string_bitmap_key n v ≡ string_bitmap_key m w
    → (n ≡ m) × (v ≡ w)
string_key-injective n m v w h k e =
    let same : (n, v) ≡ (m, w) =
      ok-injective
        (sym (decode_string-key n v h) ∙ ap decode_string_bitmap_key e ∙ decode_string-key m w k) in
    (ap (λ (x : Bytes × Bytes). x.0) same, ap (λ (x : Bytes × Bytes). x.1) same)

pub numeric_key-injective :
    (n m : Bytes) (v w : ℕ)
    → FitsNumber n v
    → FitsNumber m w
    → numeric_bitmap_key n v ≡ numeric_bitmap_key m w
    → (n ≡ m) × (v ≡ w)
numeric_key-injective n m v w h k e =
    let same : (n, v) ≡ (m, w) = ok-injective (
      sym (decode_numeric-key n v h.0 h.1)
      ∙ ap decode_numeric_bitmap_key e
      ∙ decode_numeric-key m w k.0 k.1) in
    (ap (λ (x : Bytes × ℕ). x.0) same, ap (λ (x : Bytes × ℕ). x.1) same)

-- The first byte of a key.
unfoldable pub first : Bytes → ℕ
first [] = 0
first (b ∷ k) = b

pub first-string : (n v : Bytes) → first (string_bitmap_key n v) ≡ prefix_string_bitmap
unfolding first string_bitmap_key
first-string n v = refl

pub first-numeric : (n : Bytes) (v : ℕ) → first (numeric_bitmap_key n v) ≡ prefix_numeric_bitmap
unfolding first numeric_bitmap_key
first-numeric n v = refl

pub prefix_cons :
    (b : ℕ) (k : Bytes) → has_prefix (b ∷ []) k ≡ true → (rest : Bytes) × (k ≡ b ∷ rest)
unfolding has_prefix
prefix_cons b [] h = cc
prefix_cons b (c ∷ k) h = (k, ap (λ x. x ∷ k) (sym ((==_iff b c).0 (ground arith))))

module _ (env : Environment) (runs : Runs env) where
  open env use {pebble, roaring, string_json, number_json}

  abbrev pub string_entries : Entries Bytes roaring.Bitmap → Db env → Result (Db env)
  string_entries =
      flush_entries pebble roaring runs.reliable runs.writes bytes_eq bytes_eq_iff FitsString
        string_bitmap_key string_key-injective

  abbrev pub number_entries : Entries ℕ roaring.Bitmap → Db env → Result (Db env)
  number_entries =
      flush_entries pebble roaring runs.reliable runs.writes same_number ==_iff FitsNumber
        numeric_bitmap_key numeric_key-injective

  pub flush_strings-entries :
      (entries : Entries Bytes roaring.Bitmap) (d : Db env)
      → flush_string_bitmaps pebble roaring entries d ≡ string_entries entries d
  unfolding flush_string_bitmaps flush_entries set_string_bitmap delete_string_bitmap
  flush_strings-entries [] d = refl
  flush_strings-entries ((n, v, b) ∷ rest) d = >>=-cong _ _ _ (λ d'. flush_strings-entries rest d')

  pub flush_numbers-entries :
      (entries : Entries ℕ roaring.Bitmap) (d : Db env)
      → flush_numeric_bitmaps pebble roaring entries d ≡ number_entries entries d
  unfolding flush_numeric_bitmaps flush_entries set_numeric_bitmap delete_numeric_bitmap
  flush_numbers-entries [] d = refl
  flush_numbers-entries ((n, v, b) ∷ rest) d = >>=-cong _ _ _ (λ d'. flush_numbers-entries rest d')

  -- Everything but the index is as it was.
  abbrev pub KeepsRest : Db env → Db env → Type 0
  KeepsRest d d' =
      (k : Bytes)
      → (first k ≡ prefix_string_bitmap → ⊥)
      → (first k ≡ prefix_numeric_bitmap → ⊥)
      → pebble.view d' k ≡ pebble.view d k

  -- Everything but the last block and the index is as it was.
  abbrev pub KeepsRows : Db env → Db env → Type 0
  KeepsRows d d' =
      (k : Bytes)
      → (first k ≡ prefix_last_block → ⊥)
      → (first k ≡ prefix_string_bitmap → ⊥)
      → (first k ≡ prefix_numeric_bitmap → ⊥)
      → pebble.view d' k ≡ pebble.view d k

  module _ (d d' : Db env) (keeps : KeepsRows d d') where
    current_kept : (k : Bytes) → current pebble d' k ≡ current pebble d k
    unfolding first
    current_kept k =
        keeps (prefix_entity_current ∷ k) (λ e. omega arith) (λ e. omega arith) (λ e. omega arith)

    payload_kept : (id : ℕ) → pebble.view d' (payload_key id) ≡ pebble.view d (payload_key id)
    unfolding first payload_key
    payload_kept id = keeps _ (λ e. omega arith) (λ e. omega arith) (λ e. omega arith)

    count_kept : pebble.view d' entity_count_key ≡ pebble.view d entity_count_key
    unfolding first entity_count_key
    count_kept = keeps _ (λ e. omega arith) (λ e. omega arith) (λ e. omega arith)

    kept-Consistent :
        (next : ℕ) (keys : List Bytes)
        → Consistent pebble next keys d
        → Consistent pebble next keys d'
    kept-Consistent next keys h = record {
      unique = h.unique;
      listed = λ k. (
        λ m. let (v, e) = (h.listed k).0 m in (v, current_kept k ∙ e),
        λ there. (h.listed k).1 (there.0, sym (current_kept k) ∙ there.1),
      );
      numbered = λ k v e. h.numbered k v (sym (current_kept k) ∙ e);
      apart = λ k j v e e'. h.apart k j v (sym (current_kept k) ∙ e) (sym (current_kept j) ∙ e');
      counted = count_kept ∙ h.counted;
      fewer = h.fewer;
      in_range = h.in_range;
    }

    -- The rows are those of before, and the index is as it is given.
    pub kept-Tracks :
        (next : ℕ) (keys : List Bytes) (rows : Bytes → EntityRow) (c c' : Cache env)
        (a : Attributes)
        → Tracks env next keys rows d c a
        → Readable env d'
        → IsCache pebble roaring c'
        → Holds env d' c' a
        → Tracks env next keys rows d' c' a
    kept-Tracks next keys rows c c' a t readable cached holds = record {
      consistent = kept-Consistent next keys t.consistent;
      readable = readable;
      cached = cached;
      holds = holds;
      rows_read = λ k m.
          let (wide, h) = t.rows_read k m in
          (
            wide,
            record {
              read =
                  get_current-others pebble (attributes_json string_json)
                    (attributes_json number_json) runs.reliable next keys d d' k t.consistent wide
                    (current_kept k) (λ id e small. payload_kept id)
                  ∙ h.read;
              own_key = h.own_key;
              entity = h.entity;
              strings = h.strings;
              numbers = h.numbers;
            },
          );
      strings_fit = t.strings_fit;
      numbers_fit = t.numbers_fit;
      above = t.above;
    }
