-- ===== src/Ident/Varint/Codec.antt =====
-- A number there and back.
use native.Mathlib.Nat.{pow-le-pow_right, pow-suc, mul-le-mul_right}
use securelink.Common.{
  ℕ, zero, suc, ◌+◌, ◌-◌, ◌*◌, ◌/◌, ◌%◌, ◌^◌, ◌≤◌, ◌<◌, ◌≡◌, ap, ◌∙◌, List, [], ◌∷◌, ◌++◌, ltb,
  bit_or, ok, arith, length, Bool-cases, Outcome-cases, inl, inr,
}
use securelink.Common.Bits.{bit_or_step, bit_or-zero, bit_or-shifted}
use securelink.Bytes.{u8, u64}
use securelink.Ident.Varint.{encode_loop, encode_u64, decode_loop, decode_u64, size_loop, size_u64}

pow_step : (s n : ℕ) → n ≡ s + 1 → 2 ^ n ≡ 2 ^ s * 2
pow_step s n e = ap (λ m. 2 ^ m) (e ∙ omega arith) ∙ pow-suc 2 s

pow_seven : (s : ℕ) → 2 ^ (s + 7) ≡ 2 ^ s * 128
pow_seven s = omega (
  arith,
  pow_step (s + 6) (s + 7) (omega arith),
  pow_step (s + 5) (s + 6) (omega arith),
  pow_step (s + 4) (s + 5) (omega arith),
  pow_step (s + 3) (s + 4) (omega arith),
  pow_step (s + 2) (s + 3) (omega arith),
  pow_step (s + 1) (s + 2) (omega arith),
  pow_step s (s + 1) (omega arith),
)

-- The shift of a number that fits ends in time.
exponent_lem : (shift v : ℕ) → 128 ≤ v → v * 2 ^ shift < 2 ^ 64 → shift + 7 < 64
exponent_lem shift v hv h = elim (Bool-cases (ltb (shift + 7) 64)) [
  | inl e ↦ ground arith
  | inr e ↦
      let large : 2 ^ 64 ≤ 2 ^ (shift + 7) =
        pow-le-pow_right (omega arith) {i = 64} (ground arith) in
      let grown : 128 * 2 ^ shift ≤ v * 2 ^ shift = mul-le-mul_right (2 ^ shift) hv in
      absurd (omega (arith, pow_seven shift))
]

seven_bits : (v : ℕ) → (u8 (bit_or v 0x80) % 2 ^ 7 ≡ v % 2 ^ 7) × (128 ≤ u8 (bit_or v 0x80))
seven_bits v = ground (
  arith,
  bit_or_step (v) 128,
  bit_or_step (v / 2) 64,
  bit_or_step (v / 2 / 2) 32,
  bit_or_step (v / 2 / 2 / 2) 16,
  bit_or_step (v / 2 / 2 / 2 / 2) 8,
  bit_or_step (v / 2 / 2 / 2 / 2 / 2) 4,
  bit_or_step (v / 2 / 2 / 2 / 2 / 2 / 2) 2,
  bit_or_step (v / 2 / 2 / 2 / 2 / 2 / 2 / 2) 1,
  bit_or-zero (v / 2 / 2 / 2 / 2 / 2 / 2 / 2 / 2),
)

regroup : (q d p : ℕ) → (q * 128 + d) * p ≡ d * p + q * (p * 128)
regroup q d p = grind arith

-- The last seven bits and the others.
split_lem : (v p : ℕ) → v * p ≡ v % 2 ^ 7 * p + v / 2 ^ 7 * (p * 128)
split_lem v p =
    let parts : v ≡ v / 2 ^ 7 * 128 + v % 2 ^ 7 = omega arith in
    ap (λ n. n * p) parts ∙ regroup (v / 2 ^ 7) (v % 2 ^ 7) p

decode_loop-encode_loop :
    (n v cap i shift acc : ℕ) (bytes rest : List ℕ)
    → v * 2 ^ shift < 2 ^ 64
    → acc < 2 ^ shift
    → encode_loop n v cap ≡ ok bytes
    → decode_loop n i shift acc (bytes ++ rest) ≡ ok (acc + v * 2 ^ shift, i + length bytes)
unfolding encode_loop decode_loop
decode_loop-encode_loop zero v cap i shift acc bytes rest hv ha e = absurd (ground arith)
decode_loop-encode_loop (suc n) v cap i shift acc bytes rest hv ha e =
    elim (Bool-cases (ltb v 128)) [
      | inl small ↦
          let fits = bit_or-shifted shift acc v ha in
          let low : u8 v % 2 ^ 7 ≡ v = ground arith in
          let byte : u8 v ≡ v = ground arith in
          let shape : bytes ≡ u8 v ∷ [] = ground arith in
          let read = ap (λ n. bit_or acc (u64 (n * 2 ^ shift))) low in
          let whole : u64 (v * 2 ^ shift) ≡ v * 2 ^ shift = omega arith in rw shape (ground arith)
      | inr large ↦ elim (Outcome-cases (encode_loop n (v / 2 ^ 7) (cap - 1))) [
        | inl (tail, t) ↦
            let b : ℕ = u8 (bit_or v 0x80) in
            let shape : bytes ≡ b ∷ tail = ground arith in
            let seven = seven_bits v in
            let d : ℕ = v % 2 ^ 7 in
            let power : ℕ = 2 ^ shift in
            let split = split_lem v power in
            let seven_more = pow_seven shift in
            let high : v / 2 ^ 7 * 2 ^ (shift + 7) ≡ v / 2 ^ 7 * (power * 128) =
              ap (λ n. v / 2 ^ 7 * n) seven_more in
            let small : d * power ≤ 127 * power = mul-le-mul_right power (omega arith) in
            let grown : acc + d * power < 2 ^ (shift + 7) = omega arith in
            let fits : v / 2 ^ 7 * 2 ^ (shift + 7) < 2 ^ 64 = omega arith in
            let low : u64 (d * power) ≡ d * power = omega arith in
            let value : bit_or acc (u64 (b % 2 ^ 7 * 2 ^ shift)) ≡ acc + d * power =
              ap (λ n. bit_or acc (u64 (n * 2 ^ shift))) seven.0
              ∙ (ap (bit_or acc) low ∙ bit_or-shifted shift acc d ha) in
            let ends = exponent_lem shift v (ground arith) hv in
            let next =
              decode_loop-encode_loop n (v / 2 ^ 7) (cap - 1) (i + 1) (shift + 7) (acc + d * power)
                tail rest fits grown t in
            let go = ap (λ m. decode_loop n (i + 1) (shift + 7) m (tail ++ rest)) value ∙ next in
            let number : acc + d * power + v / 2 ^ 7 * 2 ^ (shift + 7) ≡ acc + v * 2 ^ shift =
              omega arith in
            rw shape (ground arith)
        | inr bad ↦ absurd (ground arith)
      ]
    ]

encode_loop-total :
    (n v cap : ℕ)
    → v < 128 ^ n
    → 0 < n
    → size_loop n v ≤ cap
    → (bytes : List ℕ) × (encode_loop n v cap ≡ ok bytes) × (length bytes ≡ size_loop n v)
unfolding encode_loop size_loop
encode_loop-total zero v cap h p c = absurd (omega arith)
encode_loop-total (suc n) v cap h p c = elim (Bool-cases (ltb v 128)) [
  | inl small ↦ (u8 v ∷ [], ground arith, ground arith)
  | inr large ↦
      let power = pow-suc 128 n in
      let some_fuel : 0 < n = fuel_left n v h (ground arith) in
      let (bytes, e, l) =
        encode_loop-total n (v / 2 ^ 7) (cap - 1) (omega arith) some_fuel (ground arith) in
      (u8 (bit_or v 0x80) ∷ bytes, ground arith, ground arith)
]
  where
    fuel_left : (n v : ℕ) → v < 128 ^ suc n → 128 ≤ v → 0 < n
    fuel_left zero v h l = absurd (omega arith)
    fuel_left (suc n) v h l = omega arith

-- A number of 64 bits is encoded in any buffer of the size that `sl_varint_size_u64` says or more;
-- the encoding has that size and is read back as the number, whatever bytes follow it.
pub decode_u64-encode_u64 :
    (v cap : ℕ) (rest : List ℕ)
    → v < 2 ^ 64
    → size_u64 v ≤ cap
    → (bytes : List ℕ) × (encode_u64 v cap ≡ ok bytes)
      × (length bytes ≡ size_u64 v)
      × (decode_u64 (bytes ++ rest) ≡ ok (v, size_u64 v))
unfolding encode_u64 decode_u64 size_u64
decode_u64-encode_u64 v cap rest h room =
    let (bytes, e, l) = encode_loop-total 10 v cap (omega arith) (omega arith) room in
    let back = decode_loop-encode_loop 10 v cap 0 0 0 bytes rest (omega arith) (omega arith) e in
    let value : 0 + v * 2 ^ 0 ≡ v = omega arith in (bytes, e, l, ground arith)
