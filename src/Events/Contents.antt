-- ===== src/Events/Contents.antt =====
-- What the store holds, without its database: the entities with their rows, the attributes that
-- are indexed, and the next identifier; and what each operation of a block makes of it.
use pebble_bitmap_store_note.Prelude.{
  ℕ, suc, ◌+◌, ◌≡◌, ◌≢◌, ◌<◌, true, false, Option, none, some, List, [], ◌∷◌, In, Bytes, ok, leb,
}
use pebble_bitmap_store_note.Index.Attributes.{Attributes}
use pebble_bitmap_store_note.Maps.{Entries}
use pebble_bitmap_store_note.Payloads.Keys.{without_key}
use pebble_bitmap_store_note.Events.{
  Operation, Block, OpCreate, OpUpdate, OpExtendBtl, OpChangeOwner,
}
use pebble_bitmap_store_note.Events.Attributes.{
  create_strings, create_numbers, update_strings, update_numbers,
}
use pebble_bitmap_store_note.Events.Operations.{Environment, EntityFields, Db, Cache}
use pebble_bitmap_store_note.Events.Blocks.{slice_at, last_of, updates_map}
use pebble_bitmap_store_note.Events.Tracks.{EntityRow, set_row, set_entity, Runs, IsEntity, Tracks}
use pebble_bitmap_store_note.Events.Written.{set_fields}
use pebble_bitmap_store_note.Events.Creates.{create_fields}
use pebble_bitmap_store_note.Events.Moves.{extended, owned}

pub record Contents : Type 0 where
  pub next : ℕ
  pub keys : List Bytes
  pub rows : Bytes → EntityRow
  pub attributes : Attributes

-- The entity `key` with other fields.
abbrev pub with_fields : (env : Environment) → Contents → Bytes → EntityFields env → Contents
with_fields env s key f = record {
  next = s.next;
  keys = s.keys;
  rows = set_row s.rows key (record { id = (s.rows key).id; fields = f });
  attributes = set_fields s.attributes (s.rows key).id f;
}

-- A new entity.
abbrev pub with_entity : (env : Environment) → Contents → Bytes → EntityFields env → Contents
with_entity env s key f = record {
  next = s.next + 1;
  keys = key ∷ s.keys;
  rows = set_row s.rows key (record { id = s.next; fields = f });
  attributes = set_fields s.attributes s.next f;
}

abbrev pub without_entity : Contents → Bytes → Contents
without_entity s key = record {
  next = s.next;
  keys = without_key key s.keys;
  rows = s.rows;
  attributes = set_entity s.attributes (s.rows key).id [] [];
}

-- The key of a `Delete` or an `Expire`.
abbrev pub removed_key : Operation → Option Bytes
removed_key o = elim o.delete [ some key ↦ some key | none ↦ o.expire ]

module _ (env : Environment) (runs : Runs env) where
  open env use {to_lower, hash_hex, address_hex}

  abbrev pub Holding : Contents → Db env → Cache env → Type 0
  Holding s d c = Tracks env s.next s.keys s.rows d c s.attributes

  -- One operation of the block `number`, at a position, with the updates of the block.
  pub data Step (number : ℕ) (updates : Entries (List ℕ)) (position : ℕ) (o : Operation)
      (s : Contents) : Contents → Type 0 where
    creates :
        (create : OpCreate) (strs : Entries Bytes) (nums : Entries ℕ)
        → o.create ≡ some create
        → create_strings to_lower hash_hex address_hex create ≡ ok (some strs)
        → create_numbers number o.tx_index o.op_index create ≡ ok (some nums)
        → IsEntity env (create_fields env runs create strs nums)
        → s.next + 1 < 18446744073709551616
        → (In create.key s.keys → ⊥)
        → Step number updates position o s
            (with_entity env s create.key (create_fields env runs create strs nums))
    -- the last update of an entity in the block
    updates_last :
        (update : OpUpdate) (strs : Entries Bytes) (nums : Entries ℕ)
        → o.create ≡ none
        → o.update ≡ some update
        → last_of (slice_at updates update.key) ≡ ok position
        → In update.key s.keys
        → update_strings to_lower hash_hex address_hex (s.rows update.key).fields.str_attrs update
          ≡ ok (some strs)
        → update_numbers number (s.rows update.key).fields.num_attrs update ≡ ok (some nums)
        → IsEntity env (create_fields env runs update strs nums)
        → Step number updates position o s
            (with_fields env s update.key (create_fields env runs update strs nums))
    -- an update that another of the block follows
    skips :
        (update : OpUpdate) (last : ℕ)
        → o.create ≡ none
        → o.update ≡ some update
        → last_of (slice_at updates update.key) ≡ ok last
        → position ≢ last
        → Step number updates position o s s
    removes :
        (key : Bytes)
        → o.create ≡ none
        → o.update ≡ none
        → removed_key o ≡ some key
        → In key s.keys
        → Step number updates position o s (without_entity s key)
    extends :
        (extend : OpExtendBtl)
        → o.create ≡ none
        → o.update ≡ none
        → removed_key o ≡ none
        → o.extend_btl ≡ some extend
        → In extend.key s.keys
        → IsEntity env (extended env runs extend (s.rows extend.key).fields)
        → Step number updates position o s
            (with_fields env s extend.key (extended env runs extend (s.rows extend.key).fields))
    changes_owner :
        (change : OpChangeOwner)
        → o.create ≡ none
        → o.update ≡ none
        → removed_key o ≡ none
        → o.extend_btl ≡ none
        → o.change_owner ≡ some change
        → In change.key s.keys
        → IsEntity env (owned env runs change (s.rows change.key).fields)
        → Step number updates position o s
            (with_fields env s change.key (owned env runs change (s.rows change.key).fields))

  -- The operations of a block from a position on.
  pub data Steps (number : ℕ) (updates : Entries (List ℕ))
      : ℕ → List Operation → Contents → Contents → Type 0 where
    finished : {position : ℕ} {s : Contents} → Steps number updates position [] s s
    next_step :
        {position : ℕ} {o : Operation} {rest : List Operation} {s s1 s2 : Contents}
        → Step number updates position o s s1
        → Steps number updates (suc position) rest s1 s2
        → Steps number updates position (o ∷ rest) s s2

  -- The blocks of a batch, of which those up to the last block are skipped.
  pub data Blocks (last_block : ℕ) : List Block → Contents → Contents → Type 0 where
    no_block : {s : Contents} → Blocks last_block [] s s
    known_block :
        {b : Block} {rest : List Block} {s s1 : Contents}
        → leb b.number last_block ≡ true
        → Blocks last_block rest s s1
        → Blocks last_block (b ∷ rest) s s1
    new_block :
        {b : Block} {rest : List Block} {s s1 s2 : Contents}
        → leb b.number last_block ≡ false
        → Steps b.number (updates_map 0 b.operations []) 0 b.operations s s1
        → Blocks last_block rest s1 s2
        → Blocks last_block (b ∷ rest) s s2
