-- ===== src/Payloads/Written.antt =====
-- What the end of `UpsertPayload` leaves in the database.
use pebble_bitmap_store_note.Prelude.{
  ℕ, ◌<◌, ◌≡◌, ◌≢◌, refl, sym, ◌∙◌, false, Option, some, ◌∷◌, Bytes, bytes_eq, bytes_eq_iff,
  bytes_eq_refl, inl, inr, Bool-cases, ok, >>=-eq-ok, if◌then◌else◌,
}
use pebble_bitmap_store_note.Packages.PebbleDb.{Pebble, Reliable}
use pebble_bitmap_store_note.Packages.Json.{Json}
use pebble_bitmap_store_note.Encoding.Integers.{put_uint64}
use pebble_bitmap_store_note.Encoding.Keys.{
  prefix_entity_current, prefix_string_bitmap, prefix_numeric_bitmap, payload_key, entity_count_key,
}
use pebble_bitmap_store_note.Payloads.Record.{Fields, encode_payload_value, decode_payload_value}
use pebble_bitmap_store_note.Payloads.Record.RoundTrip.{Encodable, decode-encode_payload_value}
use pebble_bitmap_store_note.Payloads.Operations.{write_payload}
use pebble_bitmap_store_note.Payloads.Consistent.{current, put_uint64-injective}

module _ (p : Pebble) {S N : Type 0} (strings : Json S) (numbers : Json N) where
  open p use {Db, view, set, set_view}

  pub record Written (d d' : Db) (id : ℕ) (arg : Fields S N) : Type 0 where
    pub entry :
        (k : Bytes)
        → current p d' k
          ≡ (if bytes_eq arg.entity_key k then some (put_uint64 id) else current p d k)
    pub count : view d' entity_count_key ≡ view d entity_count_key
    pub encoded : Bytes
    pub payload_there : view d' (payload_key id) ≡ some encoded
    pub decodes : decode_payload_value strings numbers encoded ≡ ok arg
    pub others :
        (j : ℕ)
        → j < 18446744073709551616
        → j ≢ id
        → view d' (payload_key j) ≡ view d (payload_key j)
    -- the index is not touched
    pub strings_kept :
        (k : Bytes) → view d' (prefix_string_bitmap ∷ k) ≡ view d (prefix_string_bitmap ∷ k)
    pub numbers_kept :
        (k : Bytes) → view d' (prefix_numeric_bitmap ∷ k) ≡ view d (prefix_numeric_bitmap ∷ k)

  entry_test :
      (key k : Bytes) (id : ℕ) (enc : Bytes) (o q r : Option Bytes)
      → o ≡ (if bytes_eq (payload_key id) (prefix_entity_current ∷ k) then some enc else q)
      → q ≡ (
          if bytes_eq (prefix_entity_current ∷ key) (prefix_entity_current ∷ k)
          then some (put_uint64 id)
          else r)
      → o ≡ (if bytes_eq key k then some (put_uint64 id) else r)
  unfolding bytes_eq payload_key
  entry_test key k id enc o q r h h' = h ∙ h'

  count_test :
      (key : Bytes) (id : ℕ) (enc : Bytes) (o q r : Option Bytes)
      → o ≡ (if bytes_eq (payload_key id) entity_count_key then some enc else q)
      → q ≡ (
          if bytes_eq (prefix_entity_current ∷ key) entity_count_key
          then some (put_uint64 id)
          else r)
      → o ≡ r
  unfolding bytes_eq payload_key entity_count_key
  count_test key id enc o q r h h' = h ∙ h'

  strings_test :
      (key k : Bytes) (id : ℕ) (enc : Bytes) (o q r : Option Bytes)
      → o ≡ (if bytes_eq (payload_key id) (prefix_string_bitmap ∷ k) then some enc else q)
      → q ≡ (
          if bytes_eq (prefix_entity_current ∷ key) (prefix_string_bitmap ∷ k)
          then some (put_uint64 id)
          else r)
      → o ≡ r
  unfolding bytes_eq payload_key
  strings_test key k id enc o q r h h' = h ∙ h'

  numbers_test :
      (key k : Bytes) (id : ℕ) (enc : Bytes) (o q r : Option Bytes)
      → o ≡ (if bytes_eq (payload_key id) (prefix_numeric_bitmap ∷ k) then some enc else q)
      → q ≡ (
          if bytes_eq (prefix_entity_current ∷ key) (prefix_numeric_bitmap ∷ k)
          then some (put_uint64 id)
          else r)
      → o ≡ r
  unfolding bytes_eq payload_key
  numbers_test key k id enc o q r h h' = h ∙ h'

  payload_test :
      (key : Bytes) (id j : ℕ) (enc : Bytes) (o q r : Option Bytes)
      → o ≡ (if bytes_eq (payload_key id) (payload_key j) then some enc else q)
      → q ≡ (
          if bytes_eq (prefix_entity_current ∷ key) (payload_key j)
          then some (put_uint64 id)
          else r)
      → bytes_eq (put_uint64 id) (put_uint64 j) ≡ false
      → o ≡ r
  unfolding bytes_eq payload_key
  payload_test key id j enc o q r h h' apart = rw apart at h ∙ h'

  pub numbers_apart :
      (id j : ℕ)
      → id < 18446744073709551616
      → j < 18446744073709551616
      → j ≢ id
      → bytes_eq (put_uint64 id) (put_uint64 j) ≡ false
  numbers_apart id j small small' differ =
      elim (Bool-cases (bytes_eq (put_uint64 id) (put_uint64 j))) [
        | inl same ↦
            absurd
              (differ (sym (put_uint64-injective id j small small' ((bytes_eq_iff _ _).0 same))))
        | inr apart ↦ apart
      ]

  pub write_payload-Written :
      Reliable p
      → (d : Db) (id : ℕ) (arg : Fields S N) → Encodable strings numbers arg
      → id < 18446744073709551616
      → (d' : Db) × (write_payload p strings numbers d
            (prefix_entity_current ∷ arg.entity_key)
            id
            arg
          ≡ ok (id, d'))
        × Written d d' id arg
  unfolding write_payload
  write_payload-Written reliable d id arg encodable small =
      let ec_key : Bytes = prefix_entity_current ∷ arg.entity_key in
      let (d1, first) = reliable.sets d ec_key (put_uint64 id) in
      let (enc, encodes, decodes) =
        >>=-eq-ok
          (encode_payload_value strings numbers arg.entity_key arg.content_type arg.str_attrs
            arg.num_attrs arg.payload)
          _ (decode-encode_payload_value strings numbers arg encodable) in
      let (d2, second) = reliable.sets d1 (payload_key id) enc in
      (
        d2,
        rw (first, encodes, second) refl,
        record {
          entry = λ k.
              entry_test arg.entity_key k id enc _ _ _ (set_view d1 d2 _ _ _ second)
                (set_view d d1 _ _ _ first);
          count =
              count_test arg.entity_key id enc _ _ _ (set_view d1 d2 _ _ _ second)
                (set_view d d1 _ _ _ first);
          encoded = enc;
          payload_there =
              rw (bytes_eq_refl (payload_key id)) at (set_view d1 d2 _ _ (payload_key id) second);
          decodes = decodes;
          others = λ j small' differ.
              payload_test arg.entity_key id j enc _ _ _ (set_view d1 d2 _ _ _ second)
                (set_view d d1 _ _ _ first) (numbers_apart id j small small' differ);
          strings_kept = λ k.
              strings_test arg.entity_key k id enc _ _ _ (set_view d1 d2 _ _ _ second)
                (set_view d d1 _ _ _ first);
          numbers_kept = λ k.
              numbers_test arg.entity_key k id enc _ _ _ (set_view d1 d2 _ _ _ second)
                (set_view d d1 _ _ _ first);
        },
      )
