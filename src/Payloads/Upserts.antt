-- ===== src/Payloads/Upserts.antt =====
-- `UpsertPayload` on a consistent store, for a new entity and for one that is there.
use pebble_bitmap_store_note.Prelude.{
  ℕ, ◌+◌, ◌<◌, ◌≡◌, ◌≢◌, refl, sym, ap, ◌∙◌, false, Option, none, some, List, ◌∷◌, Bytes, bytes_eq,
  bytes_eq_iff, length, inl, inr, Bool-cases, ok, if◌then◌else◌, arith,
}
use pebble_bitmap_store_note.Packages.PebbleDb.{Pebble, Reliable, get-view}
use pebble_bitmap_store_note.Packages.Json.{Json}
use pebble_bitmap_store_note.Encoding.Integers.{u64, put_uint64}
use pebble_bitmap_store_note.Encoding.Keys.{
  payload_key, entity_count_key, id_counter_key, prefix_string_bitmap, prefix_numeric_bitmap,
}
use pebble_bitmap_store_note.Store.{increment_entity_count, next_id}
use pebble_bitmap_store_note.Payloads.Record.{Fields}
use pebble_bitmap_store_note.Payloads.Record.RoundTrip.{Encodable}
use pebble_bitmap_store_note.Payloads.Operations.{
  upsert_payload, get_current_payload_for_entity_key,
}
use pebble_bitmap_store_note.Payloads.Consistent.{
  current, Consistent, insert-Consistent, same-Consistent, number_free, eight_bytes-put_uint64,
}
use pebble_bitmap_store_note.Payloads.Written.{Written, write_payload-Written}
use pebble_bitmap_store_note.Payloads.Reads.{
  entity_current_key-key, get_current-Written, get_current-others,
}

module _ (p : Pebble) {S N : Type 0} (strings : Json S) (numbers : Json N)
    (reliable : Reliable p) where
  open p use {Db, view, set, set_view}

  -- A database that differs from another in the counters alone, the entity count being `n`.
  record Counted (d d' : Db) (n : ℕ) : Type 0 where
    entries : (k : Bytes) → current p d' k ≡ current p d k
    payloads : (j : ℕ) → view d' (payload_key j) ≡ view d (payload_key j)
    count : view d' entity_count_key ≡ some (put_uint64 n)
    strings_kept :
        (k : Bytes) → view d' (prefix_string_bitmap ∷ k) ≡ view d (prefix_string_bitmap ∷ k)
    numbers_kept :
        (k : Bytes) → view d' (prefix_numeric_bitmap ∷ k) ≡ view d (prefix_numeric_bitmap ∷ k)

  next_id-ok :
      (next : ℕ) (d d' : Db)
      → set d id_counter_key (put_uint64 (u64 (next + 1))) ≡ ok d'
      → next + 1 < 18446744073709551616
      → next_id p next d ≡ (next + 1, ok (next, d'))
  unfolding next_id
  next_id-ok next d d' h room =
      let step : u64 (next + 1) ≡ next + 1 = omega arith in
      rw (next_id, h) (ap (λ m. (m, ok (next, d'))) step)

  increment-ok :
      (n : ℕ) (d d' : Db)
      → view d entity_count_key ≡ some (put_uint64 n)
      → n < 18446744073709551616
      → set d entity_count_key (put_uint64 (u64 (n + 1))) ≡ ok d'
      → increment_entity_count p d ≡ ok d'
  unfolding increment_entity_count
  increment-ok n d d' there small h =
      rw (get-view p reliable d entity_count_key, there, eight_bytes-put_uint64 n small) h

  -- What `UpsertPayload` has done to the counters before it writes a new entity.
  allocate-Counted :
      (next n : ℕ) (d : Db)
      → view d entity_count_key ≡ some (put_uint64 n)
      → n + 1 < 18446744073709551616
      → next + 1 < 18446744073709551616
      → (d1 : Db) × (d2 : Db) × (next_id p next d ≡ (next + 1, ok (next, d1)))
        × (increment_entity_count p d1 ≡ ok d2)
        × Counted d d2 (n + 1)
  unfolding bytes_eq id_counter_key entity_count_key payload_key
  allocate-Counted next n d counted small room =
      let step : u64 (n + 1) ≡ n + 1 = omega arith in
      let (d1, first) = reliable.sets d id_counter_key (put_uint64 (u64 (next + 1))) in
      let there : view d1 entity_count_key ≡ some (put_uint64 n) =
        set_view d d1 id_counter_key _ entity_count_key first ∙ counted in
      let (d2, second) = reliable.sets d1 entity_count_key (put_uint64 (u64 (n + 1))) in
      (
        d1,
        d2,
        next_id-ok next d d1 first room,
        increment-ok n d1 d2 there (omega arith) second,
        record {
          entries = λ k. set_view d1 d2 _ _ _ second ∙ set_view d d1 _ _ _ first;
          payloads = λ j. set_view d1 d2 _ _ _ second ∙ set_view d d1 _ _ _ first;
          count =
              set_view d1 d2 entity_count_key _ entity_count_key second
              ∙ ap (λ m. some (put_uint64 m)) step;
          strings_kept = λ k. set_view d1 d2 _ _ _ second ∙ set_view d d1 _ _ _ first;
          numbers_kept = λ k. set_view d1 d2 _ _ _ second ∙ set_view d d1 _ _ _ first;
        },
      )

  -- What an upsert leaves to be read: the new row, and every other as it was.
  pub record Stores (d d' : Db) (id : ℕ) (arg : Fields S N) : Type 0 where
    pub reads_back :
        get_current_payload_for_entity_key p strings numbers d' arg.entity_key
        ≡ ok (record { id = id; fields = arg })
    pub keeps :
        (k : Bytes)
        → length k ≡ 32
        → k ≢ arg.entity_key
        → get_current_payload_for_entity_key p strings numbers d' k
          ≡ get_current_payload_for_entity_key p strings numbers d k
    pub strings_kept :
        (k : Bytes) → view d' (prefix_string_bitmap ∷ k) ≡ view d (prefix_string_bitmap ∷ k)
    pub numbers_kept :
        (k : Bytes) → view d' (prefix_numeric_bitmap ∷ k) ≡ view d (prefix_numeric_bitmap ∷ k)

  Written-Stores :
      (next : ℕ) (keys : List Bytes) (d d1 d' : Db) (id : ℕ) (arg : Fields S N)
      → Consistent p next keys d
      → length arg.entity_key ≡ 32
      → id < 18446744073709551616
      → ((k : Bytes) → current p d1 k ≡ current p d k)
      → ((j : ℕ) → view d1 (payload_key j) ≡ view d (payload_key j))
      → ((k : Bytes) → k ≢ arg.entity_key → current p d k ≡ some (put_uint64 id) → ⊥)
      → ((k : Bytes) → view d1 (prefix_string_bitmap ∷ k) ≡ view d (prefix_string_bitmap ∷ k))
      → ((k : Bytes) → view d1 (prefix_numeric_bitmap ∷ k) ≡ view d (prefix_numeric_bitmap ∷ k))
      → Written p strings numbers d1 d' id arg
      → Stores d d' id arg
  Written-Stores next keys d d1 d' id arg c wide small entries payloads taken strs nums w = record {
    strings_kept = λ k. w.strings_kept k ∙ strs k;
    numbers_kept = λ k. w.numbers_kept k ∙ nums k;
    reads_back = get_current-Written p strings numbers reliable d1 d' id arg small wide w;
    keeps = λ k wide' differ.
        get_current-others p strings numbers reliable next keys d d' k c wide'
          (rw (differs k differ) at (w.entry k) ∙ entries k)
          (λ j there small'.
            w.others j small' (λ same. taken k differ (there ∙ ap (λ m. some (put_uint64 m)) same))
            ∙ payloads j);
  }
    where
      differs : (k : Bytes) → k ≢ arg.entity_key → bytes_eq arg.entity_key k ≡ false
      differs k differ = elim (Bool-cases (bytes_eq arg.entity_key k)) [
        | inl same ↦ absurd (differ (sym ((bytes_eq_iff _ _).0 same)))
        | inr e ↦ e
      ]

  -- Writing again what is there.
  rewritten :
      (key k : Bytes) {w : Option Bytes} (at_key : Bytes → Option Bytes)
      → at_key key ≡ w
      → (if bytes_eq key k then w else at_key k) ≡ at_key k
  rewritten key k at_key e = elim (Bool-cases (bytes_eq key k)) [
    | inl same ↦ rw same (sym e ∙ ap at_key ((bytes_eq_iff key k).0 same))
    | inr other ↦ rw other refl
  ]

  -- On a consistent store with room for one more identifier, and while the database serves every
  -- call, inserting an entity that is not there succeeds, if it has a key of 32 bytes, a content
  -- type of less than 65536 bytes, and attributes whose JSON is shorter than 2 ^ 32 bytes and
  -- unmarshals to them: it takes the identifier of the counter, the store stays consistent with
  -- the entity counted, the entity is read back as it was given, and every other entity is read as
  -- before.
  pub upsert_payload-new :
      (next : ℕ) (keys : List Bytes) (d : Db) (arg : Fields S N)
      → Consistent p next keys d
      → Encodable strings numbers arg
      → next + 1 < 18446744073709551616
      → current p d arg.entity_key ≡ none
      → (d' : Db) × (upsert_payload p strings numbers next d arg ≡ (next + 1, ok (next, d')))
        × Consistent p (next + 1) (arg.entity_key ∷ keys) d'
        × Stores d d' next arg
  unfolding upsert_payload
  upsert_payload-new next keys d arg c encodable room new =
      let small : next < 18446744073709551616 = omega arith in
      let (d1, d2, alloc, incr, counted) =
        allocate-Counted next (length keys) d c.counted (omega (arith, c.fewer)) room in
      let (d', writes, w) =
        write_payload-Written p strings numbers reliable d2 next arg encodable small in
      (
        d',
        rw
            (
              upsert_payload,
              entity_current_key-key arg.entity_key encodable.wide,
              get-view p reliable d,
              new,
              alloc,
              incr,
              writes,
            )
            refl,
        insert-Consistent p next keys d d' arg.entity_key c new
            (λ k. rw (counted.entries k) at (w.entry k)) room (w.count ∙ counted.count),
        Written-Stores next keys d d2 d' next arg c encodable.wide small counted.entries
            counted.payloads (λ k differ. number_free p next keys d c k) counted.strings_kept
            counted.numbers_kept w,
      )

  -- On a consistent store, and while the database serves every call, upserting an entity that is
  -- there, with an identifier below 2 ^ 64, succeeds and keeps its identifier, if it has a key of
  -- 32 bytes, a content type of less than 65536 bytes, and attributes whose JSON is shorter than 2
  -- ^ 32 bytes and unmarshals to them: the store stays consistent with the same entities and
  -- count, the entity is read back as it was given, and every other entity is read as before.
  pub upsert_payload-existing :
      (next : ℕ) (keys : List Bytes) (d : Db) (arg : Fields S N) (id : ℕ)
      → Consistent p next keys d
      → Encodable strings numbers arg
      → id < 18446744073709551616
      → current p d arg.entity_key ≡ some (put_uint64 id)
      → (d' : Db) × (upsert_payload p strings numbers next d arg ≡ (next, ok (id, d')))
        × Consistent p next keys d'
        × Stores d d' id arg
  unfolding upsert_payload
  upsert_payload-existing next keys d arg id c encodable small there =
      let (d', writes, w) =
        write_payload-Written p strings numbers reliable d id arg encodable small in
      let same : (k : Bytes) → current p d' k ≡ current p d k =
        λ k. w.entry k ∙ rewritten arg.entity_key k (current p d) there in
      (
        d',
        rw
            (
              upsert_payload,
              entity_current_key-key arg.entity_key encodable.wide,
              get-view p reliable d,
              there,
              eight_bytes-put_uint64 id small,
              writes,
            )
            refl,
        same-Consistent p next keys d d' c same w.count,
        Written-Stores next keys d d d' id arg c encodable.wide small (λ k. refl) (λ j. refl)
            (λ k differ h. differ (c.apart k arg.entity_key _ h there)) (λ k. refl) (λ k. refl) w,
      )
