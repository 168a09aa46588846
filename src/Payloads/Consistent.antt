-- ===== src/Payloads/Consistent.antt =====
-- What holds of a store between operations: the entities, their identifiers, and the two counters.
use pebble_bitmap_store_note.Prelude.{
  ℕ, ◌+◌, ◌<◌, ◌≡◌, ◌↔◌, ◌⊎◌, inl, inr, sym, ap, ◌∙◌, refl, true, Option, none, some, List, [], ◌∷◌,
  In, Bytes, bytes_eq, bytes_eq_iff, length, eq_of_some, Bool-cases, ok, arith, if◌then◌else◌,
  ok-injective,
}
use pebble_bitmap_store_note.Packages.PebbleDb.{Pebble}
use pebble_bitmap_store_note.Encoding.Integers.{put_uint64, uint64-put_uint64}
use pebble_bitmap_store_note.Encoding.Keys.{prefix_entity_current, entity_count_key}
use pebble_bitmap_store_note.Store.{eight_bytes}
use pebble_bitmap_store_note.Payloads.Keys.{Unique}

pub eight_bytes-put_uint64 : (n : ℕ) → n < 18446744073709551616 → eight_bytes (put_uint64 n) ≡ ok n
unfolding eight_bytes put_uint64
eight_bytes-put_uint64 n small = uint64-put_uint64 n [] small

pub put_uint64-injective :
    (m n : ℕ)
    → m < 18446744073709551616
    → n < 18446744073709551616
    → put_uint64 m ≡ put_uint64 n
    → m ≡ n
put_uint64-injective m n small small' e =
    ok-injective
      (sym (eight_bytes-put_uint64 m small) ∙ ap eight_bytes e ∙ eight_bytes-put_uint64 n small')

module _ (p : Pebble) where
  open p use {Db, view}

  abbrev pub current : Db → Bytes → Option Bytes
  current d key = view d (prefix_entity_current ∷ key)

  -- With the identifier counter and the keys of the entities that the database holds.
  pub record Consistent (next : ℕ) (keys : List Bytes) (d : Db) : Type 0 where
    pub unique : Unique keys
    pub listed : (k : Bytes) → In k keys ↔ ((v : Bytes) × (current d k ≡ some v))
    -- every entity has an identifier below the counter, and no two have the same
    pub numbered :
        (k v : Bytes) → current d k ≡ some v → (id : ℕ) × (v ≡ put_uint64 id) × (id < next)
    pub apart : (k j v : Bytes) → current d k ≡ some v → current d j ≡ some v → k ≡ j
    pub counted : view d entity_count_key ≡ some (put_uint64 (length keys))
    pub fewer : length keys < next
    pub in_range : next < 18446744073709551616

  -- A write of the entry of one entity: what the new database holds comes from it or was there.
  from_write :
      (d d' : Db) (key w k v : Bytes)
      → current d' k ≡ (if bytes_eq key k then some w else current d k)
      → current d' k ≡ some v
      → ((key ≡ k) × (v ≡ w)) ⊎ (current d k ≡ some v)
  from_write d d' key w k v after h = elim (Bool-cases (bytes_eq key k)) [
    | inl same ↦ inl ((bytes_eq_iff key k).0 same, sym (eq_of_some (sym (rw same at after) ∙ h)))
    | inr other ↦ inr (sym (rw other at after) ∙ h)
  ]

  -- No entity has the identifier of the counter.
  pub number_free :
      (next : ℕ) (keys : List Bytes) (d : Db)
      → Consistent next keys d
      → (k : Bytes) → current d k ≡ some (put_uint64 next)
      → ⊥
  number_free next keys d c k h =
      let (id, e, below) = c.numbered k _ h in
      let clash : id ≡ next =
        put_uint64-injective id next (omega (arith, c.in_range)) c.in_range (sym e) in
      omega arith

  -- A new entity takes the identifier of the counter.
  module _ (next : ℕ) (keys : List Bytes) (d d' : Db) (key : Bytes) (c : Consistent next keys d)
      (new : current d key ≡ none)
      (after : (k : Bytes)
        → current d' k ≡ (if bytes_eq key k then some (put_uint64 next) else current d k)) where
    not_current : (v : Bytes) → current d key ≡ some v → ⊥
    not_current v h = none≢some (sym new ∙ h)
      where
        none≢some : ◌≡◌ {A = Option Bytes} none (some v) → ⊥
        none≢some q = cc

    not_listed : In key keys → ⊥
    not_listed there = let (v, h) = (c.listed key).0 there in not_current v h

    written : current d' key ≡ some (put_uint64 next)
    written =
        let same : bytes_eq key key ≡ true = (bytes_eq_iff key key).1 refl in rw same at (after key)

    kept : (k v : Bytes) → current d k ≡ some v → current d' k ≡ some v
    kept k v h = elim (Bool-cases (bytes_eq key k)) [
      | inl same ↦ absurd (not_current v (ap (current d) ((bytes_eq_iff key k).0 same) ∙ h))
      | inr other ↦ rw other at (after k) ∙ h
    ]

    insert_listed : (k : Bytes) → In k (key ∷ keys) ↔ ((v : Bytes) × (current d' k ≡ some v))
    insert_listed k = (to, from)
      where
        to : In k (key ∷ keys) → (v : Bytes) × (current d' k ≡ some v)
        to (inl e) = (put_uint64 next, ap (current d') e ∙ written)
        to (inr m) = let (v, h) = (c.listed k).0 m in (v, kept k v h)

        from : (v : Bytes) × (current d' k ≡ some v) → In k (key ∷ keys)
        from (v, h) = elim (from_write d d' key (put_uint64 next) k v (after k) h) [
          | inl e ↦ inl (sym e.0)
          | inr old ↦ inr ((c.listed k).1 (v, old))
        ]

    insert_numbered :
        (k v : Bytes) → current d' k ≡ some v → (id : ℕ) × (v ≡ put_uint64 id) × (id < next + 1)
    insert_numbered k v h = elim (from_write d d' key (put_uint64 next) k v (after k) h) [
      | inl e ↦ (next, e.1, omega arith)
      | inr old ↦ let (id, e, below) = c.numbered k v old in (id, e, omega arith)
    ]

    fresh : (k v : Bytes) → current d k ≡ some v → v ≡ put_uint64 next → ⊥
    fresh k v h e = number_free next keys d c k (h ∙ ap some e)

    insert_apart : (k j v : Bytes) → current d' k ≡ some v → current d' j ≡ some v → k ≡ j
    insert_apart k j v h h' = elim (from_write d d' key (put_uint64 next) k v (after k) h) [
      | inl e ↦ elim (from_write d d' key (put_uint64 next) j v (after j) h') [
        | inl e' ↦ sym e.0 ∙ e'.0
        | inr old' ↦ absurd (fresh j v old' e.1)
      ]
      | inr old ↦ elim (from_write d d' key (put_uint64 next) j v (after j) h') [
        | inl e' ↦ absurd (fresh k v old e'.1)
        | inr old' ↦ c.apart k j v old old'
      ]
    ]

    pub insert-Consistent :
        next + 1 < 18446744073709551616
        → view d' entity_count_key ≡ some (put_uint64 (length keys + 1))
        → Consistent (next + 1) (key ∷ keys) d'
    insert-Consistent room count = record {
      unique = (not_listed, c.unique);
      listed = insert_listed;
      numbered = insert_numbered;
      apart = insert_apart;
      counted = count ∙ ap (λ n. some (put_uint64 n)) (omega arith);
      fewer = omega (arith, c.fewer);
      in_range = room;
    }

  -- A database with the same entries of the entities and the same count.
  pub same-Consistent :
      (next : ℕ) (keys : List Bytes) (d d' : Db)
      → Consistent next keys d
      → ((k : Bytes) → current d' k ≡ current d k)
      → view d' entity_count_key ≡ view d entity_count_key
      → Consistent next keys d'
  same-Consistent next keys d d' c same count = record {
    unique = c.unique;
    listed = λ k. (
      λ m. let (v, h) = (c.listed k).0 m in (v, same k ∙ h),
      λ there. (c.listed k).1 (there.0, sym (same k) ∙ there.1),
    );
    numbered = λ k v h. c.numbered k v (sym (same k) ∙ h);
    apart = λ k j v h h'. c.apart k j v (sym (same k) ∙ h) (sym (same j) ∙ h');
    counted = count ∙ c.counted;
    fewer = c.fewer;
    in_range = c.in_range;
  }
