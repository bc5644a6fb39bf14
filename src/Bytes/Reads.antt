-- ===== src/Bytes/Reads.antt =====
-- Reads inside a buffer succeed, and say what they find there.
use securelink.Common.{
  ℕ, zero, suc, ◌+◌, ◌/◌, ◌^◌, ◌≤◌, ◌<◌, ◌≡◌, ap, ◌∙◌, refl, List, [], ◌∷◌, ◌++◌, append_assoc,
  arith, length, get_or, take, drop, length-append, take-append, drop-append, ok,
}
use securelink.Bytes.{
  u8, u32, byte_at, bytes_at, pack_u16, pack_u32, join_u16, join_u32, join_u64, pack_u64,
  unpack_u16, unpack_u32, unpack_u64,
}
use securelink.Bytes.Fields.{join_u16-split, join_u32-split, join_u64-split}

abbrev pub u8_at : List ℕ → ℕ → ℕ
u8_at p off = get_or p off 0

abbrev pub u16_at : List ℕ → ℕ → ℕ
u16_at p off = join_u16 (u8_at p off) (u8_at p (off + 1))

abbrev pub u32_at : List ℕ → ℕ → ℕ
u32_at p off = join_u32 (u8_at p off) (u8_at p (off + 1)) (u8_at p (off + 2)) (u8_at p (off + 3))

abbrev pub u64_at : List ℕ → ℕ → ℕ
u64_at p off = join_u64 (u32_at p off) (u32_at p (off + 4))

pub byte_at-ok : (p : List ℕ) (off : ℕ) → off < length p → byte_at p off ≡ ok (u8_at p off)
unfolding byte_at
byte_at-ok [] off h = absurd (omega arith)
byte_at-ok (x ∷ xs) zero h = refl
byte_at-ok (x ∷ xs) (suc off) h = byte_at-ok xs off (omega arith)

pub unpack_u16-ok :
    (p : List ℕ) (off : ℕ) → off + 2 ≤ length p → unpack_u16 p off ≡ ok (u16_at p off)
unfolding unpack_u16
unpack_u16-ok p off h = rw (byte_at-ok p off (omega arith), byte_at-ok p (off + 1) (omega arith))

pub unpack_u32-ok :
    (p : List ℕ) (off : ℕ) → off + 4 ≤ length p → unpack_u32 p off ≡ ok (u32_at p off)
unfolding unpack_u32
unpack_u32-ok p off h = rw (
  byte_at-ok p off (omega arith),
  byte_at-ok p (off + 1) (omega arith),
  byte_at-ok p (off + 2) (omega arith),
  byte_at-ok p (off + 3) (omega arith),
)

pub unpack_u64-ok :
    (p : List ℕ) (off : ℕ) → off + 8 ≤ length p → unpack_u64 p off ≡ ok (u64_at p off)
unfolding unpack_u64
unpack_u64-ok p off h =
    rw (unpack_u32-ok p off (omega arith), unpack_u32-ok p (off + 4) (omega arith))

pub bytes_at-ok :
    (p : List ℕ) (off n : ℕ) → off + n ≤ length p → bytes_at p off n ≡ ok (take n (drop off p))
unfolding bytes_at
bytes_at-ok p off n h = ground arith

-- The bytes between two other stretches of the buffer.
pub bytes_at-middle :
    (front xs back : List ℕ) → bytes_at (front ++ (xs ++ back)) (length front) (length xs) ≡ ok xs
bytes_at-middle front xs back = rw (
  bytes_at-ok (front ++ (xs ++ back)) (length front) (length xs) inside,
  drop-append front (xs ++ back),
  take-append xs back,
)
  where
    inside : length front + length xs ≤ length (front ++ (xs ++ back))
    inside = omega (arith, length-append front (xs ++ back), length-append xs back)

-- The same for an input, an offset and a length that are only equal to these.
pub bytes_at-eq :
    (input front xs back : List ℕ) (off n : ℕ)
    → input ≡ front ++ (xs ++ back)
    → off ≡ length front
    → n ≡ length xs
    → bytes_at input off n ≡ ok xs
bytes_at-eq input front xs back off n e f g = rw (e, f, g) (bytes_at-middle front xs back)

pub byte_at-middle :
    (front back : List ℕ) (b i : ℕ) → i ≡ length front → byte_at (front ++ (b ∷ back)) i ≡ ok b
unfolding byte_at
byte_at-middle [] back b i e = rw e
byte_at-middle (x ∷ xs) back b zero e = absurd (omega arith)
byte_at-middle (x ∷ xs) back b (suc i) e = byte_at-middle xs back b i (omega arith)

-- A 16-bit field behind `front`.
pub unpack_u16-eq :
    (input front back : List ℕ) (v off : ℕ)
    → v < 2 ^ 16
    → input ≡ front ++ (pack_u16 v ++ back)
    → off ≡ length front
    → unpack_u16 input off ≡ ok v
unfolding unpack_u16 pack_u16
unpack_u16-eq input front back v off h e f =
    let a = u8 (v / 2 ^ 8) in
    rw (
      e,
      byte_at-middle front (u8 v ∷ back) a off f,
      ← append_assoc front (a ∷ []) (u8 v ∷ back),
      byte_at-middle (front ++ (a ∷ [])) back (u8 v) (off + 1)
          (omega (arith, length-append front (a ∷ []))),
      join_u16-split v h,
    )

-- A 32-bit field behind `front`.
pub unpack_u32-eq :
    (input front back : List ℕ) (v off : ℕ)
    → v < 2 ^ 32
    → input ≡ front ++ (pack_u32 v ++ back)
    → off ≡ length front
    → unpack_u32 input off ≡ ok v
unfolding unpack_u32 pack_u32
unpack_u32-eq input front back v off h e f =
    let a = u8 (v / 2 ^ 24) in
    let b = u8 (v / 2 ^ 16) in
    let c = u8 (v / 2 ^ 8) in
    let d = u8 v in
    ground (
      arith,
      e,
      byte_at-middle front (b ∷ c ∷ d ∷ back) a off f,
      byte_at-middle (front ++ (a ∷ [])) (c ∷ d ∷ back) b (off + 1)
          (omega (arith, length-append front (a ∷ []))),
      byte_at-middle (front ++ (a ∷ b ∷ [])) (d ∷ back) c (off + 2)
          (omega (arith, length-append front (a ∷ b ∷ []))),
      byte_at-middle (front ++ (a ∷ b ∷ c ∷ [])) back d (off + 3)
          (omega (arith, length-append front (a ∷ b ∷ c ∷ []))),
      append_assoc front (a ∷ []) (b ∷ c ∷ d ∷ back),
      append_assoc front (a ∷ b ∷ []) (c ∷ d ∷ back),
      append_assoc front (a ∷ b ∷ c ∷ []) (d ∷ back),
      join_u32-split v h,
    )

length-pack_u32 : (v : ℕ) → length (pack_u32 v) ≡ 4
unfolding pack_u32
length-pack_u32 v = refl

-- A 64-bit field behind `front`.
pub unpack_u64-eq :
    (input front back : List ℕ) (v off : ℕ)
    → v < 2 ^ 64
    → input ≡ front ++ (pack_u64 v ++ back)
    → off ≡ length front
    → unpack_u64 input off ≡ ok v
unfolding unpack_u64 pack_u64
unpack_u64-eq input front back v off h e f =
    let hi = u32 (v / 2 ^ 32) in
    let lo = u32 v in
    rw (
      unpack_u32-eq input front (pack_u32 lo ++ back) hi off (omega arith)
          (e ∙ ap (λ t. front ++ t) (append_assoc (pack_u32 hi) (pack_u32 lo) back)) f,
      unpack_u32-eq input (front ++ pack_u32 hi) back lo (off + 4) (omega arith)
          (e ∙ rw (append_assoc, append_assoc))
          (omega (arith, length-append front (pack_u32 hi), length-pack_u32 hi)),
      join_u64-split v h,
    )
