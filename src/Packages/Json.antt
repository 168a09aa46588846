-- ===== src/Packages/Json.antt =====
-- encoding/json at one type: `Marshal` and `Unmarshal` of a value.
use pebble_bitmap_store_note.Prelude.{Bytes, Result}

pub record Json (T : Type 0) : Type 0 where
  pub marshal : T → Result Bytes
  pub unmarshal : Bytes → Result T
