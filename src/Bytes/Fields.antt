-- ===== src/Bytes/Fields.antt =====
-- What a reader makes of the bytes of a field, as arithmetic.
use securelink.Common.{ℕ, ◌+◌, ◌*◌, ◌/◌, ◌^◌, ◌<◌, ◌≡◌, arith}
use securelink.Common.Bits.{bit_or-shift}
use securelink.Bytes.{IsByte, u8, u32, join_u16, join_u32, join_u64}

pub join_u16_lem : (a b : ℕ) → IsByte a → IsByte b → join_u16 a b ≡ a * 2 ^ 8 + b
unfolding join_u16
join_u16_lem a b ha hb = omega (arith, bit_or-shift 8 a b hb)

pub join_u32_lem :
    (a b c d : ℕ)
    → IsByte a
    → IsByte b
    → IsByte c
    → IsByte d
    → join_u32 a b c d ≡ a * 2 ^ 24 + b * 2 ^ 16 + c * 2 ^ 8 + d
unfolding join_u32
join_u32_lem a b c d ha hb hc hd = ground (
  arith,
  bit_or-shift 24 a (b * 2 ^ 16) (omega arith),
  bit_or-shift 16 (a * 2 ^ 8 + b) (c * 2 ^ 8) (omega arith),
  bit_or-shift 8 (a * 2 ^ 16 + b * 2 ^ 8 + c) d hd,
)

pub join_u64_lem : (hi lo : ℕ) → hi < 2 ^ 32 → lo < 2 ^ 32 → join_u64 hi lo ≡ hi * 2 ^ 32 + lo
unfolding join_u64
join_u64_lem hi lo h l = ground (arith, bit_or-shift 32 hi lo l)

-- A field is read back as it was written.
pub join_u16-split : (v : ℕ) → v < 2 ^ 16 → join_u16 (u8 (v / 2 ^ 8)) (u8 v) ≡ v
join_u16-split v h = omega (arith, join_u16_lem (u8 (v / 2 ^ 8)) (u8 v) (omega arith) (omega arith))

pub join_u32-split :
    (v : ℕ) → v < 2 ^ 32 → join_u32 (u8 (v / 2 ^ 24)) (u8 (v / 2 ^ 16)) (u8 (v / 2 ^ 8)) (u8 v) ≡ v
join_u32-split v h = omega (
  arith,
  join_u32_lem (u8 (v / 2 ^ 24)) (u8 (v / 2 ^ 16)) (u8 (v / 2 ^ 8)) (u8 v) (omega arith)
      (omega arith) (omega arith) (omega arith),
)

pub join_u64-split : (v : ℕ) → v < 2 ^ 64 → join_u64 (u32 (v / 2 ^ 32)) (u32 v) ≡ v
join_u64-split v h =
    omega (arith, join_u64_lem (u32 (v / 2 ^ 32)) (u32 v) (omega arith) (omega arith))
