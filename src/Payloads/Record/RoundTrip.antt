-- ===== src/Payloads/Record/RoundTrip.antt =====
-- `decodePayloadValue` after `encodePayloadValue`.
use mathlib.Core.List.{append_assoc, append-nil}
use pebble_bitmap_store_note.Prelude.{
  ℕ, ◌+◌, ◌<◌, ◌≡◌, refl, ap, sym, subst, ◌∙◌, true, [], ◌++◌, Bytes, length, length-append, leb,
  le→leb, ok, ◌>>=◌, arith,
}
use pebble_bitmap_store_note.Packages.Json.{Json}
use pebble_bitmap_store_note.Encoding.Slices.{slice, slice_from, slice-middle, slice_from-append}
use pebble_bitmap_store_note.Encoding.Integers.{
  u16, u32, put_uint16, put_uint32, uint16, uint32, uint16-put_uint16, uint32-put_uint32,
}
use pebble_bitmap_store_note.Payloads.Record.{
  Fields, json_at, head_of, encode_payload_value, decode_payload_value,
}

length-put_uint32 : (n : ℕ) → length (put_uint32 n) ≡ 4
unfolding put_uint32
length-put_uint32 n = refl

length-put_uint16 : (n : ℕ) → length (put_uint16 n) ≡ 2
unfolding put_uint16
length-put_uint16 n = refl

-- Of a slice of 32 bytes the first 32 are all.
pub slice-key : (key : Bytes) → length key ≡ 32 → slice 0 32 key ≡ ok key
slice-key key wide =
    subst (λ k. slice 0 32 k ≡ ok key) (append-nil key)
      (slice-middle [] key [] 0 32 refl (omega arith))

-- A length of four bytes and that many bytes, behind any bytes.
json_at-append :
    (before s rest : Bytes) (offset : ℕ)
    → offset ≡ length before
    → length s < 4294967296
    → json_at (before ++ (put_uint32 (u32 (length s)) ++ (s ++ rest))) offset
      ≡ ok (s, offset + 4 + length s)
unfolding json_at
json_at-append before s rest offset at small =
    let size : Bytes = put_uint32 (u32 (length s)) in
    let whole : Bytes = before ++ (size ++ (s ++ rest)) in
    let exact : u32 (length s) ≡ length s = omega arith in
    let total : length whole ≡ offset + 4 + length s + length rest = omega (
      arith,
      length-append before (size ++ (s ++ rest)),
      length-append size (s ++ rest),
      length-append s rest,
      length-put_uint32 (u32 (length s)),
    ) in
    let has_size : leb (offset + 4) (length whole) ≡ true = le→leb _ _ (omega arith) in
    let has_bytes : leb (offset + 4 + length s) (length whole) ≡ true = le→leb _ _ (omega arith) in
    let number : uint32 (size ++ (s ++ rest)) ≡ ok (length s) =
      uint32-put_uint32 (u32 (length s)) (s ++ rest) (omega arith) ∙ ap ok exact in
    let cut : slice (offset + 4) (offset + 4 + length s) whole ≡ ok s =
      rw (← append_assoc before size (s ++ rest)) (
        slice-middle (before ++ size) s rest _ _
          (omega (arith, length-append before size, length-put_uint32 (u32 (length s))))
          (omega (arith, length-append before size, length-put_uint32 (u32 (length s))))) in
    rw (has_size, slice_from-append before (size ++ (s ++ rest)) offset at, number, has_bytes, cut)
      refl

-- An entity key, a content type with its length, and any bytes.
head_of-append :
    (key content_type rest : Bytes)
    → length key ≡ 32
    → length content_type < 65536
    → head_of (key ++ (put_uint16 (u16 (length content_type)) ++ (content_type ++ rest)))
      ≡ ok (key, content_type, 34 + length content_type)
unfolding head_of
head_of-append key content_type rest wide small =
    let size : Bytes = put_uint16 (u16 (length content_type)) in
    let whole : Bytes = key ++ (size ++ (content_type ++ rest)) in
    let exact : u16 (length content_type) ≡ length content_type = omega arith in
    let total : length whole ≡ 34 + length content_type + length rest = omega (
      arith,
      length-append key (size ++ (content_type ++ rest)),
      length-append size (content_type ++ rest),
      length-append content_type rest,
      length-put_uint16 (u16 (length content_type)),
    ) in
    let has_head : leb 34 (length whole) ≡ true = le→leb _ _ (omega arith) in
    let has_type : leb (34 + length content_type) (length whole) ≡ true =
      le→leb _ _ (omega arith) in
    let number : uint16 (size ++ (content_type ++ rest)) ≡ ok (length content_type) =
      uint16-put_uint16 (u16 (length content_type)) (content_type ++ rest) (omega arith)
      ∙ ap ok exact in
    let first : slice 0 32 whole ≡ ok key =
      slice-middle [] key (size ++ (content_type ++ rest)) 0 32 refl (omega arith) in
    let cut : slice 34 (34 + length content_type) whole ≡ ok content_type =
      rw (← append_assoc key size (content_type ++ rest)) (
        slice-middle (key ++ size) content_type rest _ _
          (omega (arith, length-append key size, length-put_uint16 (u16 (length content_type))))
          (omega (arith, length-append key size, length-put_uint16 (u16 (length content_type))))) in
    rw
      (
        has_head,
        first,
        slice_from-append key (size ++ (content_type ++ rest)) 32 (sym wide),
        number,
        has_type,
        cut,
      )
      refl

-- The parts of a record in one left-nested and one right-nested order.
module _ (key content_type str_json num_json payload : Bytes) where
  head_part : Bytes
  head_part = key ++ (put_uint16 (u16 (length content_type)) ++ content_type)

  strings_part : Bytes
  strings_part = put_uint32 (u32 (length str_json)) ++ str_json

  numbers_part : Bytes
  numbers_part = put_uint32 (u32 (length num_json)) ++ num_json

  abbrev joined : Bytes
  joined =
      key
      ++ (put_uint16 (u16 (length content_type))
          ++ (content_type
              ++ (put_uint32 (u32 (length str_json))
                  ++ (str_json ++ (put_uint32 (u32 (length num_json)) ++ (num_json ++ payload))))))

  joined-strings :
      joined
      ≡ head_part
        ++ (put_uint32 (u32 (length str_json))
            ++ (str_json ++ (put_uint32 (u32 (length num_json)) ++ (num_json ++ payload))))
  unfolding head_part
  joined-strings = rw (append_assoc, append_assoc) refl

  joined-numbers :
      joined
      ≡ (head_part ++ strings_part) ++ (put_uint32 (u32 (length num_json)) ++ (num_json ++ payload))
  unfolding head_part strings_part
  joined-numbers = simp (append_assoc)

  joined-payload : joined ≡ ((head_part ++ strings_part) ++ numbers_part) ++ payload
  unfolding head_part strings_part numbers_part
  joined-payload = simp (append_assoc)

  length-head_part : length key ≡ 32 → length head_part ≡ 34 + length content_type
  unfolding head_part
  length-head_part wide = omega (
    arith,
    length-append key (put_uint16 (u16 (length content_type)) ++ content_type),
    length-append (put_uint16 (u16 (length content_type))) content_type,
    length-put_uint16 (u16 (length content_type)),
  )

  length-strings_part : length strings_part ≡ 4 + length str_json
  unfolding strings_part
  length-strings_part = omega (
    arith,
    length-append (put_uint32 (u32 (length str_json))) str_json,
    length-put_uint32 (u32 (length str_json)),
  )

  length-numbers_part : length numbers_part ≡ 4 + length num_json
  unfolding numbers_part
  length-numbers_part = omega (
    arith,
    length-append (put_uint32 (u32 (length num_json))) num_json,
    length-put_uint32 (u32 (length num_json)),
  )

  joined-head_of :
      length key ≡ 32
      → length content_type < 65536
      → head_of joined ≡ ok (key, content_type, 34 + length content_type)
  joined-head_of wide small =
      head_of-append key content_type
        (put_uint32 (u32 (length str_json))
          ++ (str_json ++ (put_uint32 (u32 (length num_json)) ++ (num_json ++ payload))))
        wide small

  joined-json_at_strings :
      length key ≡ 32
      → length str_json < 4294967296
      → json_at joined (34 + length content_type)
        ≡ ok (str_json, 34 + length content_type + 4 + length str_json)
  joined-json_at_strings wide small = rw joined-strings (
      json_at-append head_part str_json
        (put_uint32 (u32 (length num_json)) ++ (num_json ++ payload)) _
        (sym (length-head_part wide)) small)

  joined-json_at_numbers :
      length key ≡ 32
      → length num_json < 4294967296
      → json_at joined (34 + length content_type + 4 + length str_json)
        ≡ ok (num_json, 34 + length content_type + 4 + length str_json + 4 + length num_json)
  joined-json_at_numbers wide small = rw joined-numbers (
      json_at-append (head_part ++ strings_part) num_json payload _
        (omega
          (arith, length-append head_part strings_part, length-head_part wide, length-strings_part))
        small)

  joined-slice_from :
      length key ≡ 32
      → slice_from (34 + length content_type + 4 + length str_json + 4 + length num_json) joined
        ≡ ok payload
  joined-slice_from wide = rw joined-payload (
      slice_from-append ((head_part ++ strings_part) ++ numbers_part) payload _ (
        omega (
          arith,
          length-append (head_part ++ strings_part) numbers_part,
          length-append head_part strings_part,
          length-head_part wide,
          length-strings_part,
          length-numbers_part,
        )))

module _ {S N : Type 0} (strings : Json S) (numbers : Json N) where
  -- Fields that a record can hold: an entity key of 32 bytes, a content type of less than 65536,
  -- and attributes whose JSON is shorter than 2 ^ 32 bytes and unmarshals to them.
  pub record Encodable (f : Fields S N) : Type 0 where
    pub str_json : Bytes
    pub num_json : Bytes
    pub wide : length f.entity_key ≡ 32
    pub short : length f.content_type < 65536
    pub str_marshal : strings.marshal f.str_attrs ≡ ok str_json
    pub str_unmarshal : strings.unmarshal str_json ≡ ok f.str_attrs
    pub str_small : length str_json < 4294967296
    pub num_marshal : numbers.marshal f.num_attrs ≡ ok num_json
    pub num_unmarshal : numbers.unmarshal num_json ≡ ok f.num_attrs
    pub num_small : length num_json < 4294967296

  -- Encoding a payload and decoding the record gives back every field, for an entity key of 32
  -- bytes, a content type of less than 65536 bytes, and attributes whose JSON is shorter than
  -- 2 ^ 32 bytes and unmarshals to them.
  pub decode-encode_payload_value :
      (f : Fields S N)
      → Encodable f
      → (encode_payload_value strings numbers f.entity_key f.content_type f.str_attrs f.num_attrs
            f.payload
          >>= decode_payload_value strings numbers)
        ≡ ok f
  unfolding encode_payload_value decode_payload_value
  decode-encode_payload_value f e =
      let key : Bytes = f.entity_key in
      rw
        (
          e.str_marshal,
          e.num_marshal,
          slice-key f.entity_key e.wide,
          joined-head_of key f.content_type e.str_json e.num_json f.payload e.wide e.short,
          joined-json_at_strings key f.content_type e.str_json e.num_json f.payload e.wide
              e.str_small,
          e.str_unmarshal,
          joined-json_at_numbers key f.content_type e.str_json e.num_json f.payload e.wide
              e.num_small,
          e.num_unmarshal,
          joined-slice_from key f.content_type e.str_json e.num_json f.payload e.wide,
        )
        refl
