-- ===== src/Bytes.antt =====
-- The big-endian integer fields of the wire formats (`pack_u16`, `unpack_u32`, ... of
-- src/sl_beacon.c and its copies in the other codecs) and reads from a received buffer.
use securelink.Common.{
  ℕ, zero, suc, ◌+◌, ◌*◌, ◌/◌, ◌%◌, ◌^◌, ◌<◌, bit_or, List, [], ◌∷◌, ◌++◌, length, take, drop,
  Outcome, ok, fault, ◌>>=◌, leb, if◌then◌else◌,
}
pub mod Fields
pub mod Reads

-- The casts `(uint8_t)`, `(uint16_t)`, `(uint32_t)`, `(uint64_t)`.
abbrev pub u8 : ℕ → ℕ
u8 x = x % 2 ^ 8

abbrev pub u16 : ℕ → ℕ
u16 x = x % 2 ^ 16

abbrev pub u32 : ℕ → ℕ
u32 x = x % 2 ^ 32

abbrev pub u64 : ℕ → ℕ
u64 x = x % 2 ^ 64

abbrev pub IsByte : ℕ → Type 0
IsByte b = b < 2 ^ 8

-- `in[i]`
unfoldable pub byte_at : List ℕ → ℕ → Outcome ℕ
byte_at [] i = fault
byte_at (x ∷ xs) zero = ok x
byte_at (x ∷ xs) (suc i) = byte_at xs i

-- `memcpy` of `n` bytes from `in + off`
unfoldable pub bytes_at : List ℕ → ℕ → ℕ → Outcome (List ℕ)
bytes_at xs off n = if leb (off + n) (length xs) then ok (take n (drop off xs)) else fault

unfoldable pub pack_u16 : ℕ → List ℕ
pack_u16 v = u8 (v / 2 ^ 8) ∷ u8 v ∷ []

unfoldable pub pack_u32 : ℕ → List ℕ
pack_u32 v = u8 (v / 2 ^ 24) ∷ u8 (v / 2 ^ 16) ∷ u8 (v / 2 ^ 8) ∷ u8 v ∷ []

unfoldable pub pack_u64 : ℕ → List ℕ
unfolding pack_u32
pack_u64 v = pack_u32 (u32 (v / 2 ^ 32)) ++ pack_u32 (u32 v)

-- The shifts and the `|` of the two readers.
unfoldable pub join_u16 : ℕ → ℕ → ℕ
join_u16 a b = u16 (bit_or (a * 2 ^ 8) b)

unfoldable pub join_u32 : ℕ → ℕ → ℕ → ℕ → ℕ
join_u32 a b c d =
    bit_or (bit_or (bit_or (u32 (a * 2 ^ 24)) (u32 (b * 2 ^ 16))) (u32 (c * 2 ^ 8))) d

unfoldable pub join_u64 : ℕ → ℕ → ℕ
join_u64 hi lo = bit_or (u64 (hi * 2 ^ 32)) lo

unfoldable pub unpack_u16 : List ℕ → ℕ → Outcome ℕ
unfolding byte_at
unpack_u16 p off = do a ← byte_at p off; b ← byte_at p (off + 1); ok (join_u16 a b)

unfoldable pub unpack_u32 : List ℕ → ℕ → Outcome ℕ
unfolding byte_at
unpack_u32 p off = do
  a ← byte_at p off
  b ← byte_at p (off + 1)
  c ← byte_at p (off + 2)
  d ← byte_at p (off + 3)
  ok (join_u32 a b c d)

unfoldable pub unpack_u64 : List ℕ → ℕ → Outcome ℕ
unfolding unpack_u32
unpack_u64 p off = do hi ← unpack_u32 p off; lo ← unpack_u32 p (off + 4); ok (join_u64 hi lo)
