-- ===== src/Crypto/Nonce.antt =====
-- src/sl_nonce.c: the nonce of a record, the session's IV with the sequence number in its last
-- eight bytes.
pub mod Fresh
use securelink.Common.{
  ℕ, ◌+◌, ◌-◌, ◌/◌, ◌^◌, bit_xor, Option, none, some, List, [], ◌∷◌, ◌++◌, ◌==◌, if◌then◌else◌,
  take, drop,
}
use securelink.Bytes.{u8, u64}

-- `seq_be`
unfoldable pub seq_be : ℕ → List ℕ
seq_be seq =
    u8 (seq / 2 ^ 56)
    ∷ u8 (seq / 2 ^ 48)
    ∷ u8 (seq / 2 ^ 40)
    ∷ u8 (seq / 2 ^ 32)
    ∷ u8 (seq / 2 ^ 24)
    ∷ u8 (seq / 2 ^ 16)
    ∷ u8 (seq / 2 ^ 8)
    ∷ u8 seq
    ∷ []

-- The loop `nonce_out[i] ^= seq_be[i]` over the trailing bytes.
unfoldable pub xor_into : List ℕ → List ℕ → List ℕ
xor_into [] ss = []
xor_into (x ∷ xs) [] = x ∷ xs
xor_into (x ∷ xs) (s ∷ ss) = bit_xor x s ∷ xor_into xs ss

-- `sl_nonce_build`
unfoldable pub nonce_build : List ℕ → ℕ → List ℕ
unfolding xor_into seq_be
nonce_build iv seq = take 4 iv ++ xor_into (drop 4 iv) (seq_be seq)

abbrev pub u64_max : ℕ
u64_max = 2 ^ 64 - 1

-- `sl_nonce_next`: `none` for -1, else the new counter and the nonce.
unfoldable pub nonce_next : List ℕ → ℕ → Option (ℕ × List ℕ)
nonce_next iv seq = if seq == u64_max then none else some (u64 (seq + 1), nonce_build iv seq)
