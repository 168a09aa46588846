-- ===== src/Events/Made.antt =====
-- `Create` and `Update`, with each attribute that they give.
use pebble_bitmap_store_note.Prelude.{
  ℕ, ◌≡◌, ◌<◌, ◌+◌, refl, sym, ap, ◌∙◌, subst, In, some, List, ◌∷◌, Bytes, ok,
}
use pebble_bitmap_store_note.Index.Attributes.{Attributes}
use pebble_bitmap_store_note.Maps.{Entries, map_entries, get_entry, map_assign}
use pebble_bitmap_store_note.Events.{OpCreate, OpUpdate}
use pebble_bitmap_store_note.Events.Attributes.{
  create_strings, create_numbers, update_strings, update_numbers,
}
use pebble_bitmap_store_note.Events.Operations.{
  Environment, Db, Cache, EntityFields, apply_create, apply_update,
}
use pebble_bitmap_store_note.Events.Tracks.{EntityRow, set_row, Runs, IsEntity, Tracks}
use pebble_bitmap_store_note.Events.Written.{set_fields}
use pebble_bitmap_store_note.Events.Creates.{create_fields, apply_create-Tracks}
use pebble_bitmap_store_note.Events.Updates.{apply_update-Tracks}
use pebble_bitmap_store_note.Events.Given.{
  Managed, given_string, given_number, strings_of, numbers_of, numbers_again, get_entry-strings_of,
  get_entry-numbers_of, get_entry-numbers_again, managed_by_create, managed_by_update,
}

module _ (env : Environment) (runs : Runs env) where
  -- While the packages serve every call and the counter has room for one more identifier, creating
  -- an entity that is not there succeeds, if its attribute maps are not nil and it can be stored
  -- (a key of 32 bytes, a content type of less than 65536 bytes, attribute maps whose JSON is
  -- shorter than 2 ^ 32 bytes and unmarshals to them, and names and values that fit an index key):
  -- it takes the next identifier, and the rows and the index are those of the entities with the
  -- new one. Its attributes are the operation's but for the nine names of the store, which have
  -- the key, the owner as owner and creator, the expiration, and the block and the place of the
  -- creation.
  pub apply_create-creates :
      (next : ℕ) (keys : List Bytes) (rows : Bytes → EntityRow) (d : Db env) (c : Cache env)
      (a : Attributes) (number tx_index op_index : ℕ) (create : OpCreate) (strings : Entries Bytes)
      (numbers : Entries ℕ) (g : Managed) (f : EntityFields env)
      → Tracks env next keys rows d c a
      → create.string_attributes ≡ some strings
      → create.numeric_attributes ≡ some numbers
      → g ≡ managed_by_create env number tx_index op_index create
      → f ≡ create_fields env runs create (strings_of g strings) (numbers_of g numbers)
      → IsEntity env f
      → next + 1 < 18446744073709551616
      → (In create.key keys → ⊥)
      → (d' : Db env) × (c' : Cache env) × (apply_create env number tx_index op_index create d c
            next
          ≡ (next + 1, ok (d', c')))
        × Tracks env
            (next + 1)
            (create.key ∷ keys)
            (set_row rows create.key (record { id = next; fields = f }))
            d'
            c'
            (set_fields a next f)
        × ((name : Bytes) → get_entry (map_entries f.str_attrs) name ≡ given_string g strings name)
        × ((name : Bytes) → get_entry (map_entries f.num_attrs) name ≡ given_number g numbers name)
  unfolding create_strings create_numbers map_assign
  apply_create-creates next keys rows d c a number tx_index op_index create strings numbers g f t es
        en eg ef entity room new =
      let made : EntityFields env =
        create_fields env runs create (strings_of g strings) (numbers_of g numbers) in
      let (d', c', done, tracks) =
        apply_create-Tracks env runs next keys rows d c a number tx_index op_index create
          (strings_of g strings) (numbers_of g numbers) t (rw (es, eg) refl) (rw (en, eg) refl)
          (subst (IsEntity env) ef entity) room new in
      (
        d',
        c',
        done,
        subst
            (λ x.
              Tracks env (next + 1) (create.key ∷ keys)
                (set_row rows create.key (record { id = next; fields = x })) d' c'
                (set_fields a next x))
            (sym ef) tracks,
        λ name.
            ap (λ (x : EntityFields env). get_entry (map_entries x.str_attrs) name) ef
            ∙ get_entry-strings_of g strings name,
        λ name.
            ap (λ (x : EntityFields env). get_entry (map_entries x.num_attrs) name) ef
            ∙ get_entry-numbers_of g numbers name,
      )

  -- While the packages serve every call, updating an entity that is there succeeds, if the
  -- operation's attribute maps are not nil and the new fields can be stored (a key of 32 bytes, a
  -- content type of less than 65536 bytes, attribute maps whose JSON is shorter than 2 ^ 32 bytes
  -- and unmarshals to them, and names and values that fit an index key): it keeps its identifier,
  -- and the rows and the index are those of the entities with its new fields for its old ones. Its
  -- attributes are the operation's but for the nine names of the store: the creator, the block and
  -- the place of its creation are those that it had, the empty text or 0 where it had none, and
  -- the key, the owner, the expiration and the block of the modification are the operation's.
  pub apply_update-updates :
      (next : ℕ) (keys : List Bytes) (rows : Bytes → EntityRow) (d : Db env) (c : Cache env)
      (a : Attributes) (number : ℕ) (update : OpUpdate) (strings : Entries Bytes)
      (numbers : Entries ℕ) (g : Managed) (f : EntityFields env)
      → Tracks env next keys rows d c a
      → In update.key keys
      → update.string_attributes ≡ some strings
      → update.numeric_attributes ≡ some numbers
      → g
        ≡ managed_by_update env number
            (rows update.key).fields.str_attrs
            (rows update.key).fields.num_attrs
            update
      → f ≡ create_fields env runs update (strings_of g strings) (numbers_again g numbers)
      → IsEntity env f
      → (d' : Db env) × (c' : Cache env) × (apply_update env number update d c next
          ≡ (next, ok (d', c')))
        × Tracks env next keys
            (set_row rows update.key (record { id = (rows update.key).id; fields = f }))
            d'
            c'
            (set_fields a (rows update.key).id f)
        × ((name : Bytes) → get_entry (map_entries f.str_attrs) name ≡ given_string g strings name)
        × ((name : Bytes) → get_entry (map_entries f.num_attrs) name ≡ given_number g numbers name)
  unfolding update_strings update_numbers map_assign
  apply_update-updates next keys rows d c a number update strings numbers g f t there es en eg ef
        entity =
      let (d', c', done, tracks) =
        apply_update-Tracks env runs next keys rows d c a number update (strings_of g strings)
          (numbers_again g numbers) t there (rw (es, eg) refl) (rw (en, eg) refl)
          (subst (IsEntity env) ef entity) in
      (
        d',
        c',
        done,
        subst
            (λ x.
              Tracks env next keys
                (set_row rows update.key (record { id = (rows update.key).id; fields = x })) d' c'
                (set_fields a (rows update.key).id x))
            (sym ef) tracks,
        λ name.
            ap (λ (x : EntityFields env). get_entry (map_entries x.str_attrs) name) ef
            ∙ get_entry-strings_of g strings name,
        λ name.
            ap (λ (x : EntityFields env). get_entry (map_entries x.num_attrs) name) ef
            ∙ get_entry-numbers_again g numbers name,
      )
