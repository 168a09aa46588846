-- ===== src/Encoding/Keys/RoundTrip.antt =====
-- Decoding an encoded index key, within the range of the uint16 offsets and past it.
use mathlib.Core.List.{append_assoc, append-nil}
use pebble_bitmap_store_note.Prelude.{
  ℕ, ◌+◌, ◌<◌, ◌≤◌, ◌≡◌, refl, ap, ap₂, sym, ◌∙◌, ok-injective, [], ◌∷◌, ◌++◌, Bytes, length,
  length-append, ok, err, panic, arith,
}
use pebble_bitmap_store_note.Encoding.Slices.{
  slice, slice_from, slice-middle, slice_from-append, slice-panics,
}
use pebble_bitmap_store_note.Encoding.Integers.{
  u16, put_uint16, put_uint64, uint16, uint64, uint16-put_uint16, uint64-put_uint64,
}
use pebble_bitmap_store_note.Encoding.Keys.{
  prefix_string_bitmap, prefix_numeric_bitmap, string_bitmap_key, numeric_bitmap_key,
  decode_string_bitmap_key, decode_numeric_bitmap_key, string_bitmap_name_prefix,
  numeric_bitmap_name_prefix,
}

length-put_uint16 : (n : ℕ) → length (put_uint16 n) ≡ 2
unfolding put_uint16
length-put_uint16 n = refl

read_length : (n : ℕ) → n < 65536 → uint16 (put_uint16 (u16 n)) ≡ ok n
read_length n h =
    let small : u16 n ≡ n = omega arith in
    rw (small, ← append-nil (put_uint16 n)) (uint16-put_uint16 n [] h)

-- A key that begins with a byte, the length of `name`, and `name`.
module _ (p : ℕ) (name rest : Bytes) where
  named : Bytes
  named = p ∷ (put_uint16 (u16 (length name)) ++ (name ++ rest))

  slice-name_len : slice 1 3 named ≡ ok (put_uint16 (u16 (length name)))
  unfolding named
  slice-name_len =
      slice-middle (p ∷ []) (put_uint16 (u16 (length name))) (name ++ rest) 1 3 refl
        (omega (arith, length-put_uint16 (u16 (length name))))

  slice-name : length name + 3 < 65536 → slice 3 (u16 (3 + length name)) named ≡ ok name
  unfolding named
  slice-name h =
      slice-middle (p ∷ put_uint16 (u16 (length name))) name rest 3 _
        (omega (arith, length-put_uint16 (u16 (length name))))
        (omega (arith, length-put_uint16 (u16 (length name))))

  named-split : named ≡ (p ∷ (put_uint16 (u16 (length name)) ++ name)) ++ rest
  unfolding named
  named-split = ap (λ s. p ∷ s) (sym (append_assoc (put_uint16 (u16 (length name))) name rest))

  length-named_head : length (p ∷ (put_uint16 (u16 (length name)) ++ name)) ≡ 3 + length name
  length-named_head = omega (
    arith,
    length-append (put_uint16 (u16 (length name))) name,
    length-put_uint16 (u16 (length name)),
  )

module _ (name value : Bytes) where
  -- The steps of the decoder up to the value, which both results share.
  value_part : Bytes
  value_part = put_uint16 (u16 (length value)) ++ value

  slice-value_len :
      (p : ℕ)
      → length name + 5 < 65536
      → slice (u16 (3 + length name)) (u16 (u16 (3 + length name) + 2)) (named p name value_part)
        ≡ ok (put_uint16 (u16 (length value)))
  unfolding value_part
  slice-value_len p h = rw (named-split p name (put_uint16 (u16 (length value)) ++ value)) (
      slice-middle (p ∷ (put_uint16 (u16 (length name)) ++ name)) (put_uint16 (u16 (length value)))
        value _ _ (omega (arith, length-named_head p name value))
        (omega (arith, length-named_head p name value, length-put_uint16 (u16 (length value)))))

  named-whole :
      (p : ℕ)
      → named p name value_part
        ≡ ((p ∷ (put_uint16 (u16 (length name)) ++ name)) ++ put_uint16 (u16 (length value)))
          ++ (value ++ [])
  unfolding value_part
  named-whole p = rw (append-nil value, append_assoc) (named-split p name value_part)

  slice-value :
      (p : ℕ)
      → length name + length value + 5 < 65536
      → slice
          (u16 (u16 (3 + length name) + 2))
          (u16 (u16 (u16 (3 + length name) + 2) + length value))
          (named p name value_part)
        ≡ ok value
  slice-value p h =
      let head : Bytes = p ∷ (put_uint16 (u16 (length name)) ++ name) in
      let size : length (head ++ put_uint16 (u16 (length value))) ≡ 5 + length name = omega (
        arith,
        length-append head (put_uint16 (u16 (length value))),
        length-named_head p name value,
        length-put_uint16 (u16 (length value)),
      ) in
      rw (named-whole p) (
        slice-middle (head ++ put_uint16 (u16 (length value))) value [] _ _ (omega arith)
          (omega arith))

  string_key-named : string_bitmap_key name value ≡ named prefix_string_bitmap name value_part
  unfolding string_bitmap_key named value_part
  string_key-named = refl

  -- A string key is decoded to the name and the value that it was made of, if they have at most
  -- 65530 bytes together.
  pub decode_string-key :
      length name + length value + 5 < 65536
      → decode_string_bitmap_key (string_bitmap_key name value) ≡ ok (name, value)
  unfolding decode_string_bitmap_key
  decode_string-key h = rw (
    string_key-named,
    slice-name_len prefix_string_bitmap name value_part,
    read_length (length name) (omega arith),
    slice-name prefix_string_bitmap name value_part (omega arith),
    slice-value_len prefix_string_bitmap (omega arith),
    read_length (length value) (omega arith),
    slice-value prefix_string_bitmap h,
  )

  -- Where the name has at most 65530 bytes and the value fits its own length field, but the two
  -- have more than 65530 together, the decoder's last offset wraps and it panics.
  pub decode_string-overflow :
      length name ≤ 65530
      → length value < 65536
      → 65536 ≤ length name + length value + 5
      → decode_string_bitmap_key (string_bitmap_key name value) ≡ err panic
  unfolding decode_string_bitmap_key
  decode_string-overflow hn hv h = rw (
    string_key-named,
    slice-name_len prefix_string_bitmap name value_part,
    read_length (length name) (omega arith),
    slice-name prefix_string_bitmap name value_part (omega arith),
    slice-value_len prefix_string_bitmap (omega arith),
    read_length (length value) (omega arith),
    slice-panics (u16 (u16 (3 + length name) + 2))
        (u16 (u16 (u16 (3 + length name) + 2) + length value))
        (named prefix_string_bitmap name value_part) (omega arith),
  )

module _ (name : Bytes) (value : ℕ) where
  -- A numeric key is decoded to the name and the value that it was made of.
  pub decode_numeric-key :
      length name + 3 < 65536
      → value < 18446744073709551616
      → decode_numeric_bitmap_key (numeric_bitmap_key name value) ≡ ok (name, value)
  unfolding decode_numeric_bitmap_key
  decode_numeric-key h hv =
      let tail : slice_from (u16 (3 + length name))
            (named prefix_numeric_bitmap name (put_uint64 value))
          ≡ ok (put_uint64 value) =
        rw (named-split prefix_numeric_bitmap name (put_uint64 value)) (
          slice_from-append (prefix_numeric_bitmap ∷ (put_uint16 (u16 (length name)) ++ name))
            (put_uint64 value) _
            (omega (arith, length-named_head prefix_numeric_bitmap name []))) in
      let number : uint64 (put_uint64 value) ≡ ok value =
        rw (← append-nil (put_uint64 value)) (uint64-put_uint64 value [] hv) in
      let key : numeric_bitmap_key name value
          ≡ named prefix_numeric_bitmap name (put_uint64 value) =
        unfold numeric_bitmap_key named in refl in
      rw (
        key,
        slice-name_len prefix_numeric_bitmap name (put_uint64 value),
        read_length (length name) (omega arith),
        slice-name prefix_numeric_bitmap name (put_uint64 value) h,
        tail,
        number,
      )

module _ (p : ℕ) (name n rest rest' : Bytes) where
  -- Two keys that begin with the same byte and are equal have the same name.
  named-injective :
      length name + 3 < 65536
      → length n + 3 < 65536
      → named p name rest ≡ named p n rest'
      → name ≡ n
  named-injective h k e =
      let lengths : length name ≡ length n = ok-injective (
        sym (read_length (length name) (omega arith))
        ∙ ap uint16 (
            ok-injective
              (sym (slice-name_len p name rest) ∙ ap (slice 1 3) e ∙ slice-name_len p n rest'))
        ∙ read_length (length n) (omega arith)) in
      ok-injective (
        sym (slice-name p name rest h)
        ∙ ap₂ (λ (l : ℕ) key. slice 3 (u16 (3 + l)) key) lengths e
        ∙ slice-name p n rest' k)

module _ (name n : Bytes) (h : length name + 3 < 65536) (k : length n + 3 < 65536) where
  -- A string key that begins with the prefix of a name is a key of that name.
  pub string_name_prefix-injective :
      (v s : Bytes) → string_bitmap_key n v ≡ string_bitmap_name_prefix name ++ s → name ≡ n
  unfolding string_bitmap_name_prefix
  string_name_prefix-injective v s e =
      named-injective prefix_string_bitmap name n s (value_part n v) h k
        (named-split prefix_string_bitmap name s ∙ sym e ∙ string_key-named n v)

  -- The same for numeric keys.
  pub numeric_name_prefix-injective :
      (v : ℕ) (s : Bytes) → numeric_bitmap_key n v ≡ numeric_bitmap_name_prefix name ++ s → name ≡ n
  unfolding numeric_bitmap_name_prefix numeric_bitmap_key named
  numeric_name_prefix-injective v s e =
      named-injective prefix_numeric_bitmap name n s (put_uint64 v) h k
        (named-split prefix_numeric_bitmap name s ∙ sym e)

-- A key begins with the prefix of its name.
pub string_key-append :
    (n v : Bytes) → (s : Bytes) × (string_bitmap_key n v ≡ string_bitmap_name_prefix n ++ s)
unfolding string_bitmap_name_prefix
string_key-append n v =
    (value_part n v, string_key-named n v ∙ named-split prefix_string_bitmap n (value_part n v))

pub numeric_key-append :
    (n : Bytes) (v : ℕ) → (s : Bytes) × (numeric_bitmap_key n v ≡ numeric_bitmap_name_prefix n ++ s)
unfolding numeric_bitmap_name_prefix numeric_bitmap_key named
numeric_key-append n v = (put_uint64 v, named-split prefix_numeric_bitmap n (put_uint64 v))
