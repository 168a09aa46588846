-- ===== src/Packages/PebbleDb.antt =====
-- github.com/cockroachdb/pebble: a database, an indexed batch over one, or a snapshot. Any call
-- may return an error; the laws say what a call that returns none has done. `view` is what the
-- database holds, for the laws and the theorems alone.
use pebble_bitmap_store_note.Prelude.{
  ◌≡◌, ◌↔◌, Option, none, some, List, Bytes, bytes_eq, Result, ok, true, In, ap, ◌∙◌, if◌then◌else◌,
}
use pebble_bitmap_store_note.Encoding.Ranges.{in_range}

pub record Pebble : Type 1 where
  pub Db : Type 0
  pub view : Db → Bytes → Option Bytes
  -- `Get`; `none` is `ErrNotFound`
  pub get : Db → Bytes → Result (Option Bytes)
  -- `Set` and `Delete` of a batch, which its own reads see
  pub set : Db → Bytes → Bytes → Result Db
  pub delete : Db → Bytes → Result Db
  -- `NewIter` with bounds, read from `First` while it is `Valid`
  pub scan : Db → Bytes → Option Bytes → Result (List (Bytes × Bytes))
  pub get_view : (d : Db) (k : Bytes) (r : Option Bytes) → get d k ≡ ok r → r ≡ view d k
  pub set_view :
      (d d' : Db) (k v j : Bytes)
      → set d k v ≡ ok d'
      → view d' j ≡ (if bytes_eq k j then some v else view d j)
  pub delete_view :
      (d d' : Db) (k j : Bytes)
      → delete d k ≡ ok d'
      → view d' j ≡ (if bytes_eq k j then none else view d j)
  pub scan_view :
      (d : Db) (lower : Bytes) (upper : Option Bytes) (found : List (Bytes × Bytes)) (k v : Bytes)
      → scan d lower upper ≡ ok found
      → In (k, v) found ↔ ((view d k ≡ some v) × (in_range lower upper k ≡ true))

-- No call on the database fails, as it is while the disk serves it.
pub record Reliable (p : Pebble) : Type 0 where
  pub gets : (d : p.Db) (k : Bytes) → (r : Option Bytes) × (p.get d k ≡ ok r)
  pub sets : (d : p.Db) (k v : Bytes) → (d' : p.Db) × (p.set d k v ≡ ok d')
  pub deletes : (d : p.Db) (k : Bytes) → (d' : p.Db) × (p.delete d k ≡ ok d')

pub get-view : (p : Pebble) → Reliable p → (d : p.Db) (k : Bytes) → p.get d k ≡ ok (p.view d k)
get-view p reliable d k = let (r, e) = reliable.gets d k in e ∙ ap ok (p.get_view d k r e)
