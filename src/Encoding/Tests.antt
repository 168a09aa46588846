-- ===== src/Encoding/Tests.antt =====
-- Keys at concrete names and values.
use pebble_bitmap_store_note.Prelude.{
  ℕ, suc, zero, ◌≡◌, refl, ap, none, some, [], ◌∷◌, Bytes, codes, length, ok, err, panic, arith,
}
use pebble_bitmap_store_note.Encoding.Integers.{put_uint16, put_uint64}
use pebble_bitmap_store_note.Encoding.Keys.{
  string_bitmap_key, numeric_bitmap_key, decode_string_bitmap_key, decode_numeric_bitmap_key,
}
use pebble_bitmap_store_note.Encoding.Keys.RoundTrip.{
  decode_string-key, decode_string-overflow, decode_numeric-key,
}
use pebble_bitmap_store_note.Encoding.Ranges.{prefix_upper_bound, in_range, has_prefix}
use pebble_bitmap_store_note.Encoding.Ranges.Exact.{prefix_upper_bound-exact}

-- The layout of a key: the prefix byte, two bytes of length, the name, and so on.
string_key_ab :
    string_bitmap_key (codes "a") (codes "bc") ≡ 0x10 ∷ 0 ∷ 1 ∷ b'a' ∷ 0 ∷ 2 ∷ b'b' ∷ b'c' ∷ []
unfolding string_bitmap_key put_uint16
string_key_ab = refl

numeric_key_258 :
    numeric_bitmap_key (codes "a") 258 ≡ 0x20 ∷ 0 ∷ 1 ∷ b'a' ∷ 0 ∷ 0 ∷ 0 ∷ 0 ∷ 0 ∷ 0 ∷ 1 ∷ 2 ∷ []
unfolding numeric_bitmap_key put_uint16 put_uint64
numeric_key_258 = refl

-- The carry leaves the wrapped bytes in place, and a prefix of 255s has no bound.
upper_bound_carry : prefix_upper_bound (1 ∷ 255 ∷ []) ≡ some (2 ∷ 0 ∷ [])
unfolding prefix_upper_bound
upper_bound_carry = refl

upper_bound_none : prefix_upper_bound (255 ∷ 255 ∷ []) ≡ none
unfolding prefix_upper_bound
upper_bound_none = refl

decode_string-key_example :
    decode_string_bitmap_key (string_bitmap_key (codes "type") (codes "nft"))
    ≡ ok (codes "type", codes "nft")
decode_string-key_example = decode_string-key (codes "type") (codes "nft") (omega arith)

decode_numeric-key_example :
    decode_numeric_bitmap_key (numeric_bitmap_key (codes "price") 100) ≡ ok (codes "price", 100)
decode_numeric-key_example = decode_numeric-key (codes "price") 100 (omega arith) (omega arith)

repeated : ℕ → Bytes
repeated zero = []
repeated (suc n) = b'x' ∷ repeated n

length-repeated : (n : ℕ) → length (repeated n) ≡ n
unfolding repeated
length-repeated zero = refl
length-repeated (suc n) = ap suc (length-repeated n)

decode_string-overflow_example :
    decode_string_bitmap_key (string_bitmap_key (codes "name") (repeated 65530)) ≡ err panic
decode_string-overflow_example =
    decode_string-overflow (codes "name") (repeated 65530) (omega arith)
      (omega (arith, length-repeated 65530)) (omega (arith, length-repeated 65530))

prefix_upper_bound-exact_example :
    in_range (2 ∷ 255 ∷ []) (prefix_upper_bound (2 ∷ 255 ∷ [])) (2 ∷ 255 ∷ 7 ∷ [])
    ≡ has_prefix (2 ∷ 255 ∷ []) (2 ∷ 255 ∷ 7 ∷ [])
prefix_upper_bound-exact_example =
    prefix_upper_bound-exact (2 ∷ 255 ∷ []) (2 ∷ 255 ∷ 7 ∷ []) (omega arith) (omega arith)
