-- ===== src/Transfer/ResumeMap/Received.antt =====
-- The count that a resume map keeps is the number of its bits.
use securelink.Common.{
  ℕ, zero, suc, ◌+◌, ◌-◌, ◌/◌, ◌%◌, ◌^◌, ◌≤◌, ◌<◌, ◌≡◌, ◌↔◌, ◌⊎◌, true, List, ltb, leb, max, ◌==◌,
  if◌then◌else◌, length, length-set, get_or, bit_or, Outcome, ok, All, arith, ap, refl, Bool-cases,
  inl, inr,
}
use securelink.Bytes.{IsByte}
use securelink.Bytes.Reads.{byte_at-ok}
use securelink.Transfer.ResumeMap.{ResumeMap, set_chunk, has, complete}
use securelink.Transfer.ResumeMap.Bitmap.{
  bit, bit_at, with_bit, bit_at-with_bit, bit-bit_or, bit-bit_and, mask_lem, byte-IsByte,
  with_bit-IsByte,
}

-- How many of the first `n` bits are set.
unfoldable pub held : List ℕ → ℕ → ℕ
held xs zero = 0
held xs (suc n) = held xs n + bit_at xs n

pub record IsValid (r : ResumeMap) : Type 0 where
  pub are_bytes : All IsByte r.bits
  pub room : length r.bits ≡ max 1 ((r.total_chunks + 7) / 8)
  pub counted : r.received_chunks ≡ held r.bits r.total_chunks
  pub small : r.total_chunks + 7 < 2 ^ 32

pub bit-le : (b k : ℕ) → bit b k ≤ 1
bit-le b k = omega arith

pub held-le : (xs : List ℕ) (n : ℕ) → held xs n ≤ n
unfolding held
held-le xs zero = omega arith
held-le xs (suc n) = omega (arith, held-le xs n)

held-with_bit :
    (xs : List ℕ) (i n : ℕ)
    → All IsByte xs
    → i / 8 < length xs
    → held (with_bit xs i) n ≡ held xs n + (if ltb i n then 1 - bit_at xs i else 0)
unfolding held
held-with_bit xs i zero h l = ground arith
held-with_bit xs i (suc n) h l =
    let before = held-with_bit xs i n h l in
    let here = bit_at-with_bit xs i n h l in
    let small = bit-le (get_or xs (n / 8) 0) (n % 8) in
    elim (Bool-cases (i == n)) [
      | inl e ↦ let same : i ≡ n = ground arith in let bits = ap (bit_at xs) same in ground arith
      | inr e ↦ ground arith
    ]

-- Bits that are all set are as many as there are.
held_full : (xs : List ℕ) (n : ℕ) → held xs n ≡ n → (j : ℕ) → j < n → bit_at xs j ≡ 1
unfolding held
held_full xs zero e j h = omega arith
held_full xs (suc n) full j h =
    let below = held-le xs n in
    let small = bit-le (get_or xs (n / 8) 0) (n % 8) in
    elim (Bool-cases (j == n)) [
      | inl e ↦ let same : j ≡ n = ground arith in let bits = ap (bit_at xs) same in ground arith
      | inr e ↦ held_full xs n (omega arith) j (ground arith)
    ]

full_held : (xs : List ℕ) (n : ℕ) → ((j : ℕ) → j < n → bit_at xs j ≡ 1) → held xs n ≡ n
unfolding held
full_held xs zero h = refl
full_held xs (suc n) h = omega (arith, full_held xs n (λ j l. h j (omega arith)), h n (omega arith))

pub has-bit : (r : ResumeMap) (j : ℕ) → j < r.total_chunks → has r j ≡ (bit_at r.bits j == 1)
unfolding has
has-bit r j h = ground arith

-- A map that keeps its count is complete when it has every chunk.
pub complete_iff :
    (r : ResumeMap)
    → IsValid r
    → (complete r ≡ true) ↔ ((j : ℕ) → j < r.total_chunks → has r j ≡ true)
unfolding complete
complete_iff r v = (
  λ c j l.
      let full = held_full r.bits r.total_chunks (ground (arith, v.counted)) j l in
      ground (arith, has-bit r j l),
  λ all.
      let set_all =
        full_held r.bits r.total_chunks (λ j l. ground (arith, has-bit r j l, all j l)) in
      ground (arith, v.counted),
)

abbrev kept : ResumeMap → Outcome ResumeMap → ResumeMap
kept r (ok s) = s
kept r _ = r

-- One call of the setter, the result of which the receiver of a file does not need.
unfoldable pub receive : ResumeMap → ℕ → ResumeMap
receive r i = kept r (set_chunk r i)

-- What the setter does to a map that keeps its count, inside and outside of the file.
pub set_chunk_lem :
    (r : ResumeMap) (i : ℕ)
    → IsValid r
    → i < r.total_chunks
    → set_chunk r i
      ≡ ok (
          if bit_at r.bits i == 0
          then record r { bits = with_bit r.bits i; received_chunks = r.received_chunks + 1 }
          else r)
unfolding set_chunk
set_chunk_lem r i v l =
    let inside : i / 8 < length r.bits = omega (arith, v.room) in
    let count : r.received_chunks ≤ r.total_chunks =
      omega (arith, v.counted, held-le r.bits r.total_chunks) in
    let tested =
      bit-bit_and (get_or r.bits (i / 8) 0) (i % 8) (byte-IsByte r.bits (i / 8) v.are_bytes)
        (omega arith) in
    let small = v.small in
    rw (byte_at-ok r.bits (i / 8) inside, mask_lem (i % 8) (omega arith)) (ground arith)

-- The map with one more chunk.
abbrev added : ResumeMap → ℕ → ResumeMap
added r i = record r { bits = with_bit r.bits i; received_chunks = r.received_chunks + 1 }

receive-cases :
    (r : ResumeMap) (i : ℕ)
    → IsValid r
    → ((receive r i ≡ r) × ((r.total_chunks ≤ i) ⊎ (bit_at r.bits i ≡ 1)))
      ⊎ ((receive r i ≡ added r i) × (i < r.total_chunks) × (bit_at r.bits i ≡ 0))
unfolding receive
receive-cases r i v = elim (Bool-cases (leb r.total_chunks i)) [
  | inl past ↦ inl (past_end r i (ground arith), inl (ground arith))
  | inr inside ↦
      let set = ap (kept r) (set_chunk_lem r i v (ground arith)) in
      let small = bit-le (get_or r.bits (i / 8) 0) (i % 8) in ground arith
]
  where
    past_end : (r : ResumeMap) (i : ℕ) → r.total_chunks ≤ i → receive r i ≡ r
    past_end r i h = unfold set_chunk in ground arith

pub receive-IsValid : (r : ResumeMap) (i : ℕ) → IsValid r → IsValid (receive r i)
receive-IsValid r i v = elim (receive-cases r i v) [
  | inl (same, why) ↦ rw same v
  | inr (more, inside, clear) ↦
      let byte : ℕ = get_or r.bits (i / 8) 0 in
      let is_byte =
        (bit-bit_or byte (i % 8) 0 (byte-IsByte r.bits (i / 8) v.are_bytes) (omega arith)
          (omega arith)).1 in
      let count = held-with_bit r.bits i r.total_chunks v.are_bytes (omega (arith, v.room)) in
      rw more (record {
        are_bytes = with_bit-IsByte r.bits (i / 8) (bit_or byte (2 ^ (i % 8))) v.are_bytes is_byte;
        room = rw (length-set r.bits (i / 8) (bit_or byte (2 ^ (i % 8)))) v.room;
        counted = ground (arith, v.counted);
        small = v.small;
      })
]

-- After a call, a chunk of the file is there if it was or is the one that the call names.
pub has-receive :
    (r : ResumeMap) (i j : ℕ)
    → IsValid r
    → j < r.total_chunks
    → has (receive r i) j ≡ (if i == j then true else has r j)
has-receive r i j v l = elim (receive-cases r i v) [
  | inl (same, why) ↦ rw same (unchanged why)
  | inr (more, inside, clear) ↦
      let b = bit_at-with_bit r.bits i j v.are_bytes (omega (arith, v.room)) in
      let before = has-bit r j l in let after = has-bit (added r i) j l in rw more (ground arith)
]
  where
    unchanged :
        (r.total_chunks ≤ i) ⊎ (bit_at r.bits i ≡ 1) → has r j ≡ (if i == j then true else has r j)
    unchanged (inl past) = ground arith
    unchanged (inr is_set) = elim (Bool-cases (i == j)) [
      | inl e ↦
          let same : i ≡ j = ground arith in
          let bits = ap (bit_at r.bits) same in ground (arith, has-bit r j l)
      | inr e ↦ ground arith
    ]

pub total-receive :
    (r : ResumeMap) (i : ℕ) → IsValid r → (receive r i).total_chunks ≡ r.total_chunks
total-receive r i v = elim (receive-cases r i v) [
  | inl (same, why) ↦ ap (λ s. s.total_chunks) same
  | inr (more, inside, clear) ↦ ap (λ s. s.total_chunks) more
]
