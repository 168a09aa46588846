-- ===== src/Encoding/Integers.antt =====
-- Go's encoding/binary: `binary.BigEndian` at 16, 32 and 64 bits, and integer conversions.
use pebble_bitmap_store_note.Prelude.{
  ℕ, ◌+◌, ◌*◌, ◌/◌, ◌%◌, ◌<◌, ◌≡◌, [], ◌∷◌, ◌++◌, arith, ap, Bytes, Result, ok, err, panic,
}

-- uint16(n)
abbrev pub u16 : ℕ → ℕ
u16 n = n % 65536

-- byte(n)
abbrev pub byte : ℕ → ℕ
byte n = n % 256

-- uint32(n)
abbrev pub u32 : ℕ → ℕ
u32 n = n % 4294967296

-- uint64(n)
abbrev pub u64 : ℕ → ℕ
u64 n = n % 18446744073709551616

unfoldable pub put_uint16 : ℕ → Bytes
put_uint16 v = byte (v / 256) ∷ byte v ∷ []

unfoldable pub put_uint32 : ℕ → Bytes
put_uint32 v = byte (v / 16777216) ∷ byte (v / 65536) ∷ byte (v / 256) ∷ byte v ∷ []

unfoldable pub put_uint64 : ℕ → Bytes
unfolding put_uint32
put_uint64 v = put_uint32 (v / 4294967296) ++ put_uint32 v

unfoldable pub uint16 : Bytes → Result ℕ
uint16 (a ∷ b ∷ rest) = ok (a * 256 + b)
uint16 _ = err panic

unfoldable pub uint32 : Bytes → Result ℕ
uint32 (a ∷ b ∷ c ∷ d ∷ rest) = ok (a * 16777216 + b * 65536 + c * 256 + d)
uint32 _ = err panic

unfoldable pub uint64 : Bytes → Result ℕ
uint64 (a ∷ b ∷ c ∷ d ∷ e ∷ f ∷ g ∷ h ∷ rest) = ok (
    (a * 16777216 + b * 65536 + c * 256 + d) * 4294967296
    + (e * 16777216 + f * 65536 + g * 256 + h))
uint64 _ = err panic

pub uint16-put_uint16 : (v : ℕ) (rest : Bytes) → v < 65536 → uint16 (put_uint16 v ++ rest) ≡ ok v
unfolding uint16 put_uint16
uint16-put_uint16 v rest h = ap ok (omega arith)

pub uint32-put_uint32 :
    (v : ℕ) (rest : Bytes) → v < 4294967296 → uint32 (put_uint32 v ++ rest) ≡ ok v
unfolding uint32 put_uint32
uint32-put_uint32 v rest h = ap ok (omega arith)

word_parts :
    (v : ℕ)
    → v % 4294967296
      ≡ (byte (v / 16777216)) * 16777216 + byte (v / 65536) * 65536 + byte (v / 256) * 256 + byte v
word_parts v = omega arith

pub uint64-put_uint64 :
    (v : ℕ) (rest : Bytes) → v < 18446744073709551616 → uint64 (put_uint64 v ++ rest) ≡ ok v
unfolding uint64 put_uint64
uint64-put_uint64 v rest h = ap ok (omega (arith, word_parts v, word_parts (v / 4294967296)))
