-- ===== src/Events/Given.antt =====
-- What `Create` and `Update` give an entity, attribute by attribute, with no reference to the
-- builders of the two operations.
use Prim.Native.Nat.{bit_or}
use pebble_bitmap_store_note.Prelude.{
  ℕ, ◌≡◌, ◌+◌, ◌*◌, refl, sym, ap, ◌∙◌, inl, inr, Bool-cases, Option, some, [], Bytes, bytes_eq,
  bytes_eq_iff, codes, if◌then◌else◌,
}
use pebble_bitmap_store_note.Encoding.Integers.{u64}
use pebble_bitmap_store_note.Maps.{Entries, GoMap, get_entry, set_entry, map_index}
use pebble_bitmap_store_note.Maps.Laws.{get_entry-set_entry}
use pebble_bitmap_store_note.Events.{OpCreate, OpUpdate}
use pebble_bitmap_store_note.Events.Operations.{Environment}

-- The three strings and the six numbers that the store sets itself.
pub record Managed : Type 0 where
  pub key : Bytes
  pub owner : Bytes
  pub creator : Bytes
  pub expiration : ℕ
  pub created_at_block : ℕ
  pub last_modified_at_block : ℕ
  pub sequence : ℕ
  pub tx_index : ℕ
  pub op_index : ℕ

-- An attribute's value: the store's own under its names, and the operation's under any other.
abbrev pub given_string : Managed → Entries Bytes → Bytes → Option Bytes
given_string g given name =
    if bytes_eq (codes "$key") name
    then some g.key
    else if bytes_eq (codes "$creator") name
    then some g.creator
    else if bytes_eq (codes "$owner") name
    then some g.owner
    else get_entry given name

abbrev pub given_number : Managed → Entries ℕ → Bytes → Option ℕ
given_number g given name =
    if bytes_eq (codes "$opIndex") name
    then some g.op_index
    else if bytes_eq (codes "$txIndex") name
    then some g.tx_index
    else if bytes_eq (codes "$sequence") name
    then some g.sequence
    else if bytes_eq (codes "$lastModifiedAtBlock") name
    then some g.last_modified_at_block
    else if bytes_eq (codes "$createdAtBlock") name
    then some g.created_at_block
    else if bytes_eq (codes "$expiration") name
    then some g.expiration
    else get_entry given name

-- The maps with these values.
abbrev pub strings_of : Managed → Entries Bytes → Entries Bytes
strings_of g given =
    set_entry (set_entry (set_entry given (codes "$owner") g.owner) (codes "$creator") g.creator)
      (codes "$key") g.key

-- `Update` assigns the block of the modification last.
abbrev pub numbers_of : Managed → Entries ℕ → Entries ℕ
numbers_of g given =
    let dated =
      set_entry (set_entry given (codes "$expiration") g.expiration) (codes "$createdAtBlock")
        g.created_at_block in
    let modified = set_entry dated (codes "$lastModifiedAtBlock") g.last_modified_at_block in
    set_entry
      (set_entry (set_entry modified (codes "$sequence") g.sequence) (codes "$txIndex") g.tx_index)
      (codes "$opIndex") g.op_index

abbrev pub numbers_again : Managed → Entries ℕ → Entries ℕ
numbers_again g given =
    let dated =
      set_entry (set_entry given (codes "$expiration") g.expiration) (codes "$createdAtBlock")
        g.created_at_block in
    let placed =
      set_entry
        (set_entry (set_entry dated (codes "$sequence") g.sequence) (codes "$txIndex") g.tx_index)
        (codes "$opIndex") g.op_index in
    set_entry placed (codes "$lastModifiedAtBlock") g.last_modified_at_block

-- One assignment, at a name whose value before it is known.
assigned :
    {V : Type 0} (m : Entries V) (k name : Bytes) (v : V) (before : Option V)
    → get_entry m name ≡ before
    → get_entry (set_entry m k v) name ≡ (if bytes_eq k name then some v else before)
assigned m k name v before h =
    get_entry-set_entry m k v name ∙ ap (λ o. if bytes_eq k name then some v else o) h

pub get_entry-strings_of :
    (g : Managed) (given : Entries Bytes) (name : Bytes)
    → get_entry (strings_of g given) name ≡ given_string g given name
get_entry-strings_of g given name = assigned _ (codes "$key") name g.key _ (
    assigned _ (codes "$creator") name g.creator _
      (assigned given (codes "$owner") name g.owner _ refl))

pub get_entry-numbers_of :
    (g : Managed) (given : Entries ℕ) (name : Bytes)
    → get_entry (numbers_of g given) name ≡ given_number g given name
get_entry-numbers_of g given name = assigned _ (codes "$opIndex") name g.op_index _ (
    assigned _ (codes "$txIndex") name g.tx_index _ (
      assigned _ (codes "$sequence") name g.sequence _ (
        assigned _ (codes "$lastModifiedAtBlock") name g.last_modified_at_block _ (
          assigned _ (codes "$createdAtBlock") name g.created_at_block _
            (assigned given (codes "$expiration") name g.expiration _ refl)))))

-- The name that is assigned last in one order and not in the other is a name of its own.
modified_first :
    (g : Managed) (given : Entries ℕ) (name : Bytes) (others : Option ℕ)
    → (if bytes_eq (codes "$lastModifiedAtBlock") name
        then some g.last_modified_at_block
        else if bytes_eq (codes "$opIndex") name
        then some g.op_index
        else if bytes_eq (codes "$txIndex") name
        then some g.tx_index
        else if bytes_eq (codes "$sequence") name
        then some g.sequence
        else others)
      ≡ (if bytes_eq (codes "$opIndex") name
          then some g.op_index
          else if bytes_eq (codes "$txIndex") name
          then some g.tx_index
          else if bytes_eq (codes "$sequence") name
          then some g.sequence
          else if bytes_eq (codes "$lastModifiedAtBlock") name
          then some g.last_modified_at_block
          else others)
unfolding bytes_eq
modified_first g given name others =
    elim (Bool-cases (bytes_eq (codes "$lastModifiedAtBlock") name)) [
      | inl e ↦
          let same : codes "$lastModifiedAtBlock" ≡ name =
            (bytes_eq_iff (codes "$lastModifiedAtBlock") name).0 e in
          rw (sym same) refl
      | inr e ↦ rw e refl
    ]

pub get_entry-numbers_again :
    (g : Managed) (given : Entries ℕ) (name : Bytes)
    → get_entry (numbers_again g given) name ≡ given_number g given name
get_entry-numbers_again g given name =
    assigned _ (codes "$lastModifiedAtBlock") name g.last_modified_at_block _ (
      assigned _ (codes "$opIndex") name g.op_index _ (
        assigned _ (codes "$txIndex") name g.tx_index _ (
          assigned _ (codes "$sequence") name g.sequence _ (
            assigned _ (codes "$createdAtBlock") name g.created_at_block _
              (assigned given (codes "$expiration") name g.expiration _ refl)))))
    ∙ modified_first g given name _

module _ (env : Environment) where
  open env use {to_lower, hash_hex, address_hex}

  -- What `Create` sets: the sender's block and place, and the owner twice.
  abbrev pub managed_by_create : ℕ → ℕ → ℕ → OpCreate → Managed
  managed_by_create number tx_index op_index create = record {
    key = to_lower (hash_hex create.key);
    owner = to_lower (address_hex create.owner);
    creator = to_lower (address_hex create.owner);
    expiration = u64 (number + create.btl);
    created_at_block = number;
    last_modified_at_block = number;
    sequence = bit_or (bit_or (u64 (number * 4294967296)) (u64 (tx_index * 65536))) op_index;
    tx_index = tx_index;
    op_index = op_index;
  }

  -- What `Update` sets: the creator, the block and the place of the creation are the old ones.
  abbrev pub managed_by_update : ℕ → GoMap Bytes → GoMap ℕ → OpUpdate → Managed
  managed_by_update number old_strings old_numbers update = record {
    key = to_lower (hash_hex update.key);
    owner = to_lower (address_hex update.owner);
    creator = map_index [] old_strings (codes "$creator");
    expiration = u64 (number + update.btl);
    created_at_block = map_index 0 old_numbers (codes "$createdAtBlock");
    last_modified_at_block = number;
    sequence = map_index 0 old_numbers (codes "$sequence");
    tx_index = map_index 0 old_numbers (codes "$txIndex");
    op_index = map_index 0 old_numbers (codes "$opIndex");
  }
