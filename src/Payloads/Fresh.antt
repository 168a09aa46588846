-- ===== src/Payloads/Fresh.antt =====
-- A store that has just been opened, in memory.
use pebble_bitmap_store_note.Prelude.{
  ◌≡◌, sym, ◌∙◌, none, some, Option, [], ◌∷◌, Bytes, bytes_eq, arith, refl,
}
use pebble_bitmap_store_note.Packages.InMemory.{Table, table_db, lookup}
use pebble_bitmap_store_note.Encoding.Integers.{put_uint64}
use pebble_bitmap_store_note.Encoding.Keys.{entity_count_key}
use pebble_bitmap_store_note.Payloads.Consistent.{Consistent, current}

abbrev pub fresh_db : Table
fresh_db = (entity_count_key, put_uint64 0) ∷ []

pub no_entity : (k : Bytes) → current table_db fresh_db k ≡ none
unfolding lookup entity_count_key bytes_eq
no_entity k = refl

pub none≢some : {v : Bytes} → ◌≡◌ {A = Option Bytes} none (some v) → ⊥
none≢some q = cc

fresh_count : lookup fresh_db entity_count_key ≡ some (put_uint64 0)
unfolding lookup entity_count_key bytes_eq
fresh_count = refl

pub fresh-Consistent : Consistent table_db 1 [] fresh_db
fresh-Consistent = record {
  unique = tt;
  listed = λ k. (λ m. absurd m, λ there. none≢some (sym (no_entity k) ∙ there.1));
  numbered = λ k v h. absurd (none≢some (sym (no_entity k) ∙ h));
  apart = λ k j v h h'. absurd (none≢some (sym (no_entity k) ∙ h));
  counted = fresh_count;
  fewer = omega arith;
  in_range = omega arith;
}
