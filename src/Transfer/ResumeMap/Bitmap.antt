-- ===== src/Transfer/ResumeMap/Bitmap.antt =====
-- The bits of a byte, and of a map.
use securelink.Common.{
  ℕ, zero, suc, ◌+◌, ◌*◌, ◌/◌, ◌%◌, ◌^◌, ◌<◌, ◌≡◌, ◌≢◌, inl, inr, Bool-cases, [], ◌∷◌, All,
  get_or-set_self, get_or-set_ne, Bool, true, ◌&&◌, refl, sym, ◌∙◌, List, ◌==◌, arith,
  if◌then◌else◌, bit_and, bit_or, length, get_or, set, ltb,
}
use securelink.Common.Tables.{all_below, all_below_lem}
use securelink.Bytes.{u8, IsByte}

abbrev pub bit : ℕ → ℕ → ℕ
bit b k = b / 2 ^ k % 2

-- What setting bit `k` does to bit `j` of the byte `b`, and how `&` tests a bit.
is_right : ℕ → ℕ → ℕ → Bool
is_right b k j =
    (bit (bit_or b (2 ^ k)) j == (if k == j then 1 else bit b j))
    && ltb (bit_or b (2 ^ k)) 256
    && ((if bit_and b (2 ^ k) == 0 then 0 else 1) == bit b k)

table : all_below 16384 (λ n. is_right (n / 64) (n / 8 % 8) (n % 8)) ≡ true
unfolding all_below is_right
table = refl

right_lem : (b k j : ℕ) → b < 256 → k < 8 → j < 8 → is_right b k j ≡ true
right_lem b k j hb hk hj =
    let n : ℕ = b * 64 + k * 8 + j in
    let checked =
      all_below_lem 16384 (λ m. is_right (m / 64) (m / 8 % 8) (m % 8)) n table (omega arith) in
    let b_of : n / 64 ≡ b = omega arith in
    let k_of : n / 8 % 8 ≡ k = omega arith in
    let j_of : n % 8 ≡ j = omega arith in rw (b_of, k_of, j_of) at checked

pub bit-bit_or :
    (b k j : ℕ)
    → b < 256
    → k < 8
    → j < 8
    → (bit (bit_or b (2 ^ k)) j ≡ (if k == j then 1 else bit b j)) × (bit_or b (2 ^ k) < 256)
unfolding is_right
bit-bit_or b k j hb hk hj = ground (arith, right_lem b k j hb hk hj)

pub bit-bit_and : (b k : ℕ) → b < 256 → k < 8 → (if bit_and b (2 ^ k) == 0 then 0 else 1) ≡ bit b k
unfolding is_right
bit-bit_and b k hb hk = ground (arith, right_lem b k k hb hk hk)

-- `1U << k`
pub mask_lem : (k : ℕ) → k < 8 → u8 (2 ^ k) ≡ 2 ^ k
mask_lem k h = ground (arith, all_below_lem 8 (λ n. u8 (2 ^ n) == 2 ^ n) k masks h)
  where
    masks : all_below 8 (λ n. u8 (2 ^ n) == 2 ^ n) ≡ true
    masks = unfold all_below in refl

pub byte-IsByte : (xs : List ℕ) (i : ℕ) → All IsByte xs → get_or xs i 0 < 256
byte-IsByte [] i h = omega arith
byte-IsByte (x ∷ xs) zero h = h.0
byte-IsByte (x ∷ xs) (suc i) h = byte-IsByte xs i h.1

abbrev pub bit_at : List ℕ → ℕ → ℕ
bit_at xs i = bit (get_or xs (i / 8) 0) (i % 8)

-- The map with one more bit.
abbrev pub with_bit : List ℕ → ℕ → List ℕ
with_bit xs i = set xs (i / 8) (bit_or (get_or xs (i / 8) 0) (2 ^ (i % 8)))

pub bit_at-with_bit :
    (xs : List ℕ) (i j : ℕ)
    → All IsByte xs
    → i / 8 < length xs
    → bit_at (with_bit xs i) j ≡ (if i == j then 1 else bit_at xs j)
bit_at-with_bit xs i j h l = elim (Bool-cases (i / 8 == j / 8)) [
  | inl e ↦
      let same : i / 8 ≡ j / 8 = ground arith in
      let v : ℕ = bit_or (get_or xs (i / 8) 0) (2 ^ (i % 8)) in
      let written = get_or-set_self xs (i / 8) v 0 l in
      let b : ℕ = get_or xs (i / 8) 0 in
      let set_bit =
        bit-bit_or b (i % 8) (j % 8) (byte-IsByte xs (i / 8) h) (omega arith) (omega arith) in
      let here : (if i % 8 == j % 8 then 1 else bit b (j % 8))
          ≡ (if i == j then 1 else bit b (j % 8)) =
        ground arith in
      rw (sym same, written) (set_bit.0 ∙ here)
  | inr e ↦
      let other : i / 8 ≢ j / 8 = ground arith in
      let v : ℕ = bit_or (get_or xs (i / 8) 0) (2 ^ (i % 8)) in
      rw (get_or-set_ne xs (i / 8) (j / 8) v 0 other) (ground arith)
]

pub with_bit-IsByte : (xs : List ℕ) (i v : ℕ) → All IsByte xs → v < 256 → All IsByte (set xs i v)
with_bit-IsByte [] i v h b = h
with_bit-IsByte (x ∷ xs) zero v h b = (b, h.1)
with_bit-IsByte (x ∷ xs) (suc i) v h b = (h.0, with_bit-IsByte xs i v h.1 b)
