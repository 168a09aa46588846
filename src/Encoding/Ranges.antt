-- ===== src/Encoding/Ranges.antt =====
-- pebblestore/encoding.go: `prefixUpperBound`, the end of the range that a scan of a prefix reads.
pub mod Exact
pub mod Utf8
use mathlib.Core.List.{reverse}
use mathlib.Core.Option
use pebble_bitmap_store_note.Prelude.{
  ◌+◌, Bool, true, false, not, ◌&&◌, Option, none, some, [], ◌∷◌, ◌==◌, Bytes, bytes_lt,
  if◌then◌else◌,
}
use pebble_bitmap_store_note.Encoding.Integers.{byte}

-- The loop, from the last byte on: it adds one, and goes on to the left where the byte wraps to 0.
unfoldable pub increment : Bytes → Option Bytes
increment [] = none
increment (b ∷ left) =
    let carried = increment left in
    if byte (b + 1) == 0
    then Option.map (λ upper. 0 ∷ upper) carried
    else some (byte (b + 1) ∷ left)

-- `none` is the nil upper bound, of a scan with no end.
unfoldable pub prefix_upper_bound : Bytes → Option Bytes
unfolding increment
prefix_upper_bound pre = Option.map reverse (increment (reverse pre))

-- Pebble's iterator options: the keys from the lower bound on, before the upper bound.
unfoldable pub before : Bytes → Option Bytes → Bool
before k none = true
before k (some upper) = bytes_lt k upper

unfoldable pub in_range : Bytes → Option Bytes → Bytes → Bool
unfolding before
in_range lower upper k = not (bytes_lt k lower) && before k upper

-- The key begins with the prefix.
unfoldable pub has_prefix : Bytes → Bytes → Bool
has_prefix [] k = true
has_prefix (b ∷ pre) [] = false
has_prefix (b ∷ pre) (c ∷ k) = (b == c) && has_prefix pre k
