-- ===== src/Payloads/Reads.antt =====
-- Reading the payload of an entity back: the one that was written, and the others.
use pebble_bitmap_store_note.Prelude.{
  ℕ, ◌<◌, ◌≡◌, refl, sym, ap, ◌∙◌, Option, none, some, List, ◌∷◌, Bytes, bytes_eq_refl, length, inl,
  inr, Option-cases, Result, ok, err, missing_record, not_found, ◌>>=◌, >>=-cong, >>=-eq-ok,
  ok-injective, arith,
}
use pebble_bitmap_store_note.Packages.PebbleDb.{Pebble, Reliable, get-view}
use pebble_bitmap_store_note.Packages.Json.{Json}
use pebble_bitmap_store_note.Encoding.Integers.{put_uint64}
use pebble_bitmap_store_note.Encoding.Keys.{prefix_entity_current, payload_key, entity_current_key}
use pebble_bitmap_store_note.Store.{eight_bytes}
use pebble_bitmap_store_note.Payloads.Record.{Fields, decode_payload_value}
use pebble_bitmap_store_note.Payloads.Record.RoundTrip.{slice-key}
use pebble_bitmap_store_note.Payloads.Operations.{PayloadRow, get_current_payload_for_entity_key}
use pebble_bitmap_store_note.Payloads.Consistent.{current, Consistent, eight_bytes-put_uint64}
use pebble_bitmap_store_note.Payloads.Written.{Written}

pub entity_current_key-key :
    (key : Bytes) → length key ≡ 32 → entity_current_key key ≡ ok (prefix_entity_current ∷ key)
unfolding entity_current_key
entity_current_key-key key wide = rw (slice-key key wide) refl

module _ (p : Pebble) {S N : Type 0} (strings : Json S) (numbers : Json N) where
  open p use {Db, view}

  -- The row that an entry of an entity makes with the payloads.
  row_of : Option Bytes → (ℕ → Option Bytes) → Result (PayloadRow S N)
  row_of none payload_at = err not_found
  row_of (some v) payload_at = do
    id ← eight_bytes v
    elim (payload_at id) [
      | none ↦ err missing_record
      | some s ↦ do
        fields ← decode_payload_value strings numbers s
        ok (record { id = id; fields = fields })
    ]

  get_current-row_of :
      Reliable p
      → (d : Db) (key : Bytes) → length key ≡ 32
      → get_current_payload_for_entity_key p strings numbers d key
        ≡ row_of (current p d key) (λ id. view d (payload_key id))
  unfolding get_current_payload_for_entity_key row_of
  get_current-row_of reliable d key wide =
      rw (entity_current_key-key key wide, get-view p reliable)
        (elim (Option-cases (current p d key)) [
          | inl e ↦ rw e refl
          | inr (v, e) ↦ rw e (
              >>=-cong (eight_bytes v) _ _ (λ id. rw (get-view p reliable d (payload_key id)) refl))
        ])

  row_of-some :
      (id : ℕ) (payload_at : ℕ → Option Bytes)
      → id < 18446744073709551616
      → row_of (some (put_uint64 id)) payload_at ≡ elim (payload_at id) [
        | none ↦ err missing_record
        | some s ↦ do
          fields ← decode_payload_value strings numbers s
          ok (record { id = id; fields = fields })
      ]
  unfolding row_of
  row_of-some id payload_at small = rw (eight_bytes-put_uint64 id small) refl

  -- The entity that was written.
  pub get_current-Written :
      Reliable p
      → (d d' : Db) (id : ℕ) (arg : Fields S N) → id < 18446744073709551616
      → length arg.entity_key ≡ 32
      → Written p strings numbers d d' id arg
      → get_current_payload_for_entity_key p strings numbers d' arg.entity_key
        ≡ ok (record { id = id; fields = arg })
  get_current-Written reliable d d' id arg small wide w =
      let there : current p d' arg.entity_key ≡ some (put_uint64 id) =
        rw (bytes_eq_refl arg.entity_key) at (w.entry arg.entity_key) in
      get_current-row_of reliable d' arg.entity_key wide
      ∙ rw there (
          row_of-some id (λ j. view d' (payload_key j)) small
          ∙ rw (w.payload_there, w.decodes) refl)

  -- Another entity, whose entry and payload are the same in both databases.
  row_of-same :
      (next : ℕ) (keys : List Bytes) (d d' : Db) (k : Bytes)
      → Consistent p next keys d
      → ((id : ℕ)
          → current p d k ≡ some (put_uint64 id)
          → id < 18446744073709551616
          → view d' (payload_key id) ≡ view d (payload_key id))
      → row_of (current p d k) (λ id. view d' (payload_key id))
        ≡ row_of (current p d k) (λ id. view d (payload_key id))
  unfolding row_of
  row_of-same next keys d d' k c same = elim (Option-cases (current p d k)) [
    | inl e ↦ rw e refl
    | inr (v, e) ↦
        let (id, number, below) = c.numbered k v e in
        let small : id < 18446744073709551616 = omega (arith, c.in_range) in
        rw (e, number, eight_bytes-put_uint64 id small, same id (e ∙ ap some number) small) refl
  ]

  pub get_current-others :
      Reliable p
      → (next : ℕ) (keys : List Bytes) (d d' : Db) (k : Bytes) → Consistent p next keys d
      → length k ≡ 32
      → current p d' k ≡ current p d k
      → ((id : ℕ)
          → current p d k ≡ some (put_uint64 id)
          → id < 18446744073709551616
          → view d' (payload_key id) ≡ view d (payload_key id))
      → get_current_payload_for_entity_key p strings numbers d' k
        ≡ get_current_payload_for_entity_key p strings numbers d k
  get_current-others reliable next keys d d' k c wide entry same =
      get_current-row_of reliable d' k wide
      ∙ rw entry (row_of-same next keys d d' k c same)
      ∙ sym (get_current-row_of reliable d k wide)

  -- An entity that has no entry.
  pub get_current-none :
      Reliable p
      → (d : Db) (k : Bytes) → length k ≡ 32
      → current p d k ≡ none
      → get_current_payload_for_entity_key p strings numbers d k ≡ err not_found
  unfolding row_of
  get_current-none reliable d k wide e = get_current-row_of reliable d k wide ∙ rw e refl

  row_of-id :
      (id : ℕ) (payload_at : ℕ → Option Bytes) (row : PayloadRow S N)
      → id < 18446744073709551616
      → row_of (some (put_uint64 id)) payload_at ≡ ok row
      → row.id ≡ id
  row_of-id id payload_at row small h =
      from_payload (payload_at id) (sym (row_of-some id payload_at small) ∙ h)
    where
      from_payload :
          (o : Option Bytes)
          → (elim o as (λ _. Result (PayloadRow S N)) [
            | none ↦ err missing_record
            | some s ↦ do
              fields ← decode_payload_value strings numbers s
              ok (record { id = id; fields = fields })
          ])
            ≡ ok row
          → row.id ≡ id
      from_payload none e = cc
      from_payload (some s) e =
          let (f, _, e') = >>=-eq-ok (decode_payload_value strings numbers s) _ e in
          ap (λ (x : PayloadRow S N). x.id) (sym (ok-injective e'))

  -- The identifier of a row that was read is the one that the database has for the entity.
  pub current-row :
      Reliable p
      → (next : ℕ) (keys : List Bytes) (d : Db) (k : Bytes) (row : PayloadRow S N)
      → Consistent p next keys d
      → length k ≡ 32
      → get_current_payload_for_entity_key p strings numbers d k ≡ ok row
      → (current p d k ≡ some (put_uint64 row.id)) × (row.id < next)
  unfolding row_of
  current-row reliable next keys d k row c wide h = elim (Option-cases (current p d k)) [
    | inl e ↦ absurd (failed (sym (get_current-none reliable d k wide e) ∙ h))
    | inr (v, e) ↦
        let (id, number, below) = c.numbered k v e in
        let small : id < 18446744073709551616 = omega (arith, c.in_range) in
        let same : row.id ≡ id =
          row_of-id id (λ j. view d (payload_key j)) row small
            (ap (λ o. row_of o (λ j. view d (payload_key j))) (sym (e ∙ ap some number))
              ∙ sym (get_current-row_of reliable d k wide)
              ∙ h) in
        (e ∙ ap some (number ∙ ap put_uint64 (sym same)), omega arith)
  ]
    where
      failed : ◌≡◌ {A = Result (PayloadRow S N)} (err not_found) (ok row) → ⊥
      failed q = cc
