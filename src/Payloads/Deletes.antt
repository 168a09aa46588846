-- ===== src/Payloads/Deletes.antt =====
-- `DeletePayloadForEntityKey` on a consistent store.
use pebble_bitmap_store_note.Prelude.{
  ℕ, ◌-◌, ◌<◌, ◌≡◌, ◌≢◌, ◌==◌, ◌↔◌, refl, sym, ap, ◌∙◌, true, false, Option, none, some, List, ◌∷◌,
  In, Bytes, bytes_eq, bytes_eq_iff, bytes_eq_refl, length, inl, inr, Bool-cases, Result, ok, err,
  not_found, count_underflow, if◌then◌else◌, arith,
}
use pebble_bitmap_store_note.Packages.PebbleDb.{Pebble, Reliable, get-view}
use pebble_bitmap_store_note.Packages.Json.{Json}
use pebble_bitmap_store_note.Encoding.Integers.{put_uint64}
use pebble_bitmap_store_note.Encoding.Keys.{
  prefix_entity_current, prefix_string_bitmap, prefix_numeric_bitmap, payload_key, entity_count_key,
}
use pebble_bitmap_store_note.Store.{decrement_entity_count}
use pebble_bitmap_store_note.Payloads.Keys.{
  without_key, In-without_key, without_key-In, without_key-Unique, length-without_key,
}
use pebble_bitmap_store_note.Payloads.Operations.{
  get_current_payload_for_entity_key, delete_payload_for_entity_key,
}
use pebble_bitmap_store_note.Payloads.Consistent.{current, Consistent, eight_bytes-put_uint64}
use pebble_bitmap_store_note.Payloads.Written.{numbers_apart}
use pebble_bitmap_store_note.Payloads.Reads.{
  entity_current_key-key, get_current-others, get_current-none,
}

module _ (p : Pebble) (next : ℕ) (keys : List Bytes) (d d' : p.Db) (key : Bytes)
    (c : Consistent p next keys d) (there : In key keys)
    (after : (k : Bytes) → current p d' k ≡ (if bytes_eq key k then none else current p d k)) where
  -- What is left was there, and is not the entity taken out.
  left : (k v : Bytes) → current p d' k ≡ some v → (current p d k ≡ some v) × (k ≢ key)
  left k v h = elim (Bool-cases (bytes_eq key k)) [
    | inl same ↦ absurd (none≢some (sym (rw same at (after k)) ∙ h))
    | inr other ↦ (
      sym (rw other at (after k)) ∙ h,
      λ e. true≢false (sym ((bytes_eq_iff key k).1 (sym e)) ∙ other),
    )
  ]
    where
      none≢some : ◌≡◌ {A = Option Bytes} none (some v) → ⊥
      none≢some q = cc

      true≢false : true ≡ false → ⊥
      true≢false q = cc

  kept : (k : Bytes) → k ≢ key → current p d' k ≡ current p d k
  kept k differ = elim (Bool-cases (bytes_eq key k)) [
    | inl same ↦ absurd (differ (sym ((bytes_eq_iff key k).0 same)))
    | inr other ↦ rw other at (after k)
  ]

  remove_listed :
      (k : Bytes) → In k (without_key key keys) ↔ ((v : Bytes) × (current p d' k ≡ some v))
  remove_listed k = (
    λ m.
        let (old, differ) = In-without_key key k keys c.unique m in
        let (v, h) = (c.listed k).0 old in (v, kept k differ ∙ h),
    λ h.
        let (old, differ) = left k h.0 h.1 in
        without_key-In key k keys ((c.listed k).1 (h.0, old)) differ,
  )

  remove-Consistent :
      p.view d' entity_count_key ≡ some (put_uint64 (length keys - 1))
      → Consistent p next (without_key key keys) d'
  remove-Consistent count = record {
    unique = without_key-Unique key keys c.unique;
    listed = remove_listed;
    numbered = λ k v h. c.numbered k v (left k v h).0;
    apart = λ k j v h h'. c.apart k j v (left k v h).0 (left j v h').0;
    counted =
        count ∙ ap (λ n. some (put_uint64 n)) (omega (arith, length-without_key key keys there));
    fewer = omega (arith, c.fewer, length-without_key key keys there);
    in_range = c.in_range;
  }

module _ (p : Pebble) {S N : Type 0} (strings : Json S) (numbers : Json N)
    (reliable : Reliable p) where
  open p use {Db, view, set, delete, set_view, delete_view}

  -- The three databases that a deletion goes through.
  record Deleted (d d' : Db) (id n : ℕ) (key : Bytes) : Type 0 where
    runs :
        (d1 : Db) × (d2 : Db) × (delete d (payload_key id) ≡ ok d1)
        × (delete d1 (prefix_entity_current ∷ key) ≡ ok d2)
        × (decrement_entity_count p d2 ≡ ok d')
    entries : (k : Bytes) → current p d' k ≡ (if bytes_eq key k then none else current p d k)
    count : view d' entity_count_key ≡ some (put_uint64 (n - 1))
    others :
        (j : ℕ)
        → bytes_eq (put_uint64 id) (put_uint64 j) ≡ false
        → view d' (payload_key j) ≡ view d (payload_key j)
    strings_kept :
        (k : Bytes) → view d' (prefix_string_bitmap ∷ k) ≡ view d (prefix_string_bitmap ∷ k)
    numbers_kept :
        (k : Bytes) → view d' (prefix_numeric_bitmap ∷ k) ≡ view d (prefix_numeric_bitmap ∷ k)

  decrement-ok :
      (n : ℕ) (d d' : Db)
      → view d entity_count_key ≡ some (put_uint64 n)
      → n < 18446744073709551616
      → 0 < n
      → set d entity_count_key (put_uint64 (n - 1)) ≡ ok d'
      → decrement_entity_count p d ≡ ok d'
  unfolding decrement_entity_count
  decrement-ok n d d' there small positive h =
      let not_zero : (n == 0) ≡ false = ground arith in
      let branch : (elim (n == 0) as (λ _. Result Db) [
        | true ↦ err count_underflow
        | false ↦ set d entity_count_key (put_uint64 (n - 1))
      ])
          ≡ ok d' =
        rw not_zero h in
      rw (get-view p reliable d entity_count_key, there, eight_bytes-put_uint64 n small) branch

  delete-Deleted :
      (d : Db) (id n : ℕ) (key : Bytes)
      → view d entity_count_key ≡ some (put_uint64 n)
      → n < 18446744073709551616
      → 0 < n
      → (d' : Db) × Deleted d d' id n key
  unfolding bytes_eq payload_key entity_count_key
  delete-Deleted d id n key counted small positive =
      let (d1, first) = reliable.deletes d (payload_key id) in
      let (d2, second) = reliable.deletes d1 (prefix_entity_current ∷ key) in
      let (d3, third) = reliable.sets d2 entity_count_key (put_uint64 (n - 1)) in
      let there : view d2 entity_count_key ≡ some (put_uint64 n) =
        delete_view d1 d2 _ entity_count_key second
        ∙ delete_view d d1 _ entity_count_key first
        ∙ counted in
      (
        d3,
        record {
          runs = (d1, d2, first, second, decrement-ok n d2 d3 there small positive third);
          entries = λ k.
              let before : view d1 (prefix_entity_current ∷ k) ≡ current p d k =
                delete_view d d1 _ _ first in
              set_view d2 d3 _ _ _ third
              ∙ delete_view d1 d2 _ _ second
              ∙ ap (λ o. if bytes_eq key k then none else o) before;
          count = set_view d2 d3 entity_count_key _ entity_count_key third;
          others = λ j differ.
              set_view d2 d3 _ _ _ third
              ∙ delete_view d1 d2 _ _ second
              ∙ rw differ at (delete_view d d1 _ (payload_key j) first);
          strings_kept = λ k.
              set_view d2 d3 _ _ _ third
              ∙ delete_view d1 d2 _ _ second
              ∙ delete_view d d1 _ _ first;
          numbers_kept = λ k.
              set_view d2 d3 _ _ _ third
              ∙ delete_view d1 d2 _ _ second
              ∙ delete_view d d1 _ _ first;
        },
      )

  -- On a consistent store, and while the database serves every call, deleting an entity that is
  -- there succeeds: the store stays consistent without it and counts one entity less, the entity
  -- is not found any more, every other entity is read as before, and the index is not
  -- touched.
  pub delete_payload_for_entity_key-removes :
      (next : ℕ) (keys : List Bytes) (d : Db) (key : Bytes)
      → Consistent p next keys d
      → length key ≡ 32
      → In key keys
      → (d' : Db) × (delete_payload_for_entity_key p strings numbers d key ≡ ok d')
        × Consistent p next (without_key key keys) d'
        × (get_current_payload_for_entity_key p strings numbers d' key ≡ err not_found)
        × ((k : Bytes)
            → length k ≡ 32
            → k ≢ key
            → get_current_payload_for_entity_key p strings numbers d' k
              ≡ get_current_payload_for_entity_key p strings numbers d k)
        × ((k : Bytes) → view d' (prefix_string_bitmap ∷ k) ≡ view d (prefix_string_bitmap ∷ k))
        × ((k : Bytes) → view d' (prefix_numeric_bitmap ∷ k) ≡ view d (prefix_numeric_bitmap ∷ k))
  unfolding delete_payload_for_entity_key
  delete_payload_for_entity_key-removes next keys d key c wide there =
      let (v, held) = (c.listed key).0 there in
      let (id, number, below) = c.numbered key v held in
      let here : current p d key ≡ some (put_uint64 id) = held ∙ ap some number in
      let small : id < 18446744073709551616 = omega (arith, c.in_range) in
      let (d', done) =
        delete-Deleted d id (length keys) key c.counted (omega (arith, c.fewer, c.in_range))
          (omega (arith, length-without_key key keys there)) in
      let (d1, d2, first, second, third) = done.runs in
      (
        d',
        rw
            (
              delete_payload_for_entity_key,
              entity_current_key-key key wide,
              get-view p reliable d,
              here,
              eight_bytes-put_uint64 id small,
              first,
              second,
              third,
            )
            refl,
        remove-Consistent p next keys d d' key c there done.entries done.count,
        get_current-none p strings numbers reliable d' key wide
            (rw (bytes_eq_refl key) at (done.entries key)),
        λ k wide' differ.
            get_current-others p strings numbers reliable next keys d d' k c wide'
              (kept p next keys d d' key c there done.entries k differ)
              (λ j at_k small'. done.others j (
                numbers_apart p strings numbers id j small small' (λ same.
                  differ (c.apart k key _ (at_k ∙ ap (λ m. some (put_uint64 m)) same) here)))),
        done.strings_kept,
        done.numbers_kept,
      )
