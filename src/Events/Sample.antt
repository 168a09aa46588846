-- ===== src/Events/Sample.antt =====
-- An in-memory store with a sample entity, on which the tests run the operations.
pub mod Entities
use pebble_bitmap_store_note.Prelude.{
  ℕ, zero, suc, ◌+◌, refl, ◌&&◌, leb, some, [], ◌∷◌, ◌++◌, Bytes, codes, length, Result, ok, err,
  truncated, ◌>>=◌, if◌then◌else◌,
}
use pebble_bitmap_store_note.Packages.InMemory.{table_db, table-Reliable, list_bitmaps}
use pebble_bitmap_store_note.Encoding.Slices.{slice, slice_from}
use pebble_bitmap_store_note.Maps.{Entries, MapJson, map_entries, set_entry}
use pebble_bitmap_store_note.Events.{OpCreate, OpUpdate}
use pebble_bitmap_store_note.Events.Operations.{Environment}
use pebble_bitmap_store_note.Events.Tracks.{Runs}

-- A map as the length of each key, the key, the length of the value and the value.
module _ {V : Type 0} (write : V → Bytes) (read : Bytes → V) where
  unfoldable pub sized : Bytes → Bytes
  sized s = length s ∷ s

  unfoldable pub split : Bytes → Result (Bytes × Bytes)
  split [] = err truncated
  split (n ∷ s) = do first ← slice 0 n s; rest ← slice_from n s; ok (first, rest)

  unfoldable pub write_entries : Entries V → Bytes
  unfolding sized
  write_entries [] = []
  write_entries ((k, v) ∷ m) = sized k ++ (sized (write v) ++ write_entries m)

  -- The fuel is the length of the text.
  unfoldable pub read_entries : ℕ → Bytes → Entries V → Result (Entries V)
  unfolding split
  read_entries fuel [] m = ok m
  read_entries zero (n ∷ s) m = err truncated
  read_entries (suc fuel) (n ∷ s) m = do
    (k, rest) ← split (n ∷ s)
    (v, rest) ← split rest
    read_entries fuel rest (set_entry m k (read v))

  abbrev pub sized_json : MapJson V
  sized_json = record {
    marshal = λ m. ok (write_entries (map_entries m));
    unmarshal_into =
        λ m s. (do entries ← read_entries (length s) s (map_entries m); ok (some entries));
  }

unfoldable pub first_of : Bytes → ℕ
first_of [] = 0
first_of (n ∷ s) = n

unfoldable pub lower : Bytes → Bytes
lower [] = []
lower (c ∷ s) = (if leb 65 c && leb c 90 then c + 32 else c) ∷ lower s

abbrev pub sample_env : Environment
sample_env = record {
  pebble = table_db;
  roaring = list_bitmaps;
  string_json = sized_json (λ v. v) (λ v. v);
  number_json = sized_json (λ v. v ∷ []) first_of;
  to_lower = lower;
  hash_hex = λ k. codes "0x" ++ k;
  address_hex = λ k. codes "0x" ++ k;
  string_range = λ m. m;
  number_range = λ m. m;
}

pub sample_env-Runs : Runs sample_env
sample_env-Runs = record {
  reliable = table-Reliable;
  scans = λ d lower upper. (_, refl);
  writes = λ b. (b, refl);
  string_range_In = λ m kv. (λ h. h, λ h. h);
  number_range_In = λ m kv. (λ h. h, λ h. h);
}

abbrev pub sample_key : Bytes
sample_key = codes "abcdefghijklmnopqrstuvwxyz012345"

abbrev pub sample_create : OpCreate
sample_create = record {
  key = sample_key;
  owner = codes "ALICE";
  content_type = codes "text/plain";
  btl = 10;
  content = codes "hello";
  string_attributes = some ((codes "type", codes "note") ∷ []);
  numeric_attributes = some ((codes "level", 3) ∷ []);
}

abbrev pub sample_update : OpUpdate
sample_update = record {
  key = sample_key;
  owner = codes "BOB";
  content_type = codes "text/plain";
  btl = 20;
  content = codes "goodbye";
  string_attributes = some ((codes "type", codes "letter") ∷ []);
  numeric_attributes = some [];
}
