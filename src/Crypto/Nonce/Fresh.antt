-- ===== src/Crypto/Nonce/Fresh.antt =====
-- No nonce of a session is used twice.
use native.Mathlib.Decide.{dec_lt}
use securelink.Common.Bits.{bit_xor-injective}
use securelink.Common.{
  ℕ, zero, suc, ◌+◌, ◌^◌, ◌<◌, ◌≡◌, refl, ◌≢◌, none, some, List, [], ◌∷◌, arith, length, take, drop,
  length-drop, append-cancel, All,
}
use securelink.Crypto.Nonce.{seq_be, xor_into, nonce_build, u64_max, nonce_next}

seq_be-injective : (s t : ℕ) → s < 2 ^ 64 → t < 2 ^ 64 → seq_be s ≡ seq_be t → s ≡ t
unfolding seq_be
seq_be-injective s t hs ht e = ground arith

xor_into-injective :
    (iv ss ts : List ℕ)
    → length ss ≡ length iv
    → length ts ≡ length iv
    → xor_into iv ss ≡ xor_into iv ts
    → ss ≡ ts
unfolding xor_into
xor_into-injective [] [] [] hs ht e = refl
xor_into-injective (x ∷ iv) (s ∷ ss) (t ∷ ts) hs ht e =
    ground (arith, bit_xor-injective x s t, xor_into-injective iv ss ts)
xor_into-injective _ _ _ hs ht e = absurd (omega arith)

-- Two sequence numbers never give the same nonce under one IV of at least twelve bytes.
pub nonce_build-injective :
    (iv : List ℕ) (s t : ℕ)
    → length iv ≡ 12
    → s < 2 ^ 64
    → t < 2 ^ 64
    → nonce_build iv s ≡ nonce_build iv t
    → s ≡ t
unfolding nonce_build
nonce_build-injective iv s t hi hs ht e = seq_be-injective s t hs ht (
    xor_into-injective (drop 4 iv) (seq_be s) (seq_be t) (fits s) (fits t)
      (append-cancel (take 4 iv) _ _ e))
  where
    fits : (v : ℕ) → length (seq_be v) ≡ length (drop 4 iv)
    fits v = unfold seq_be in omega (arith, length-drop 4 iv)

-- The nonces of up to `k` calls of `sl_nonce_next`, from the counter `seq` on.
unfoldable pub issue : ℕ → List ℕ → ℕ → List (List ℕ)
issue zero iv seq = []
issue (suc k) iv seq = elim (nonce_next iv seq) [
  | none ↦ []
  | some (seq', nonce) ↦ nonce ∷ issue k iv seq'
]

abbrev pub Distinct : List (List ℕ) → Type 0
Distinct [] = Unit
Distinct (x ∷ xs) = All (λ y. x ≢ y) xs × Distinct xs

issue_last : (k : ℕ) (iv : List ℕ) (seq : ℕ) → seq ≡ u64_max → issue (suc k) iv seq ≡ []
unfolding issue nonce_next
issue_last k iv seq h = ground arith

issue_more :
    (k : ℕ) (iv : List ℕ) (seq : ℕ)
    → seq < u64_max
    → issue (suc k) iv seq ≡ nonce_build iv seq ∷ issue k iv (seq + 1)
unfolding issue nonce_next
issue_more k iv seq h = ground arith

issue-ne :
    (k : ℕ) (iv : List ℕ) (seq t : ℕ)
    → length iv ≡ 12
    → t < seq
    → seq < 2 ^ 64
    → All (λ y. nonce_build iv t ≢ y) (issue k iv seq)
unfolding issue
issue-ne zero iv seq t hi ht hs = tt
issue-ne (suc k) iv seq t hi ht hs = elim (dec_lt seq u64_max) [
  | no last ↦ rw (issue_last k iv seq (omega arith)) tt
  | yes more ↦ rw (issue_more k iv seq more) (
    (λ e. absurd (omega (arith, nonce_build-injective iv t seq hi (omega arith) hs e))),
    issue-ne k iv (seq + 1) t hi (omega arith) (omega arith),
  )
]

-- The nonces that `sl_nonce_next` hands out in a session, under one IV of twelve bytes, are
-- pairwise distinct, up to the counter's last value, at which it refuses.
pub issue-Distinct :
    (k : ℕ) (iv : List ℕ) (seq : ℕ) → length iv ≡ 12 → seq < 2 ^ 64 → Distinct (issue k iv seq)
unfolding issue
issue-Distinct zero iv seq hi hs = tt
issue-Distinct (suc k) iv seq hi hs = elim (dec_lt seq u64_max) [
  | no last ↦ rw (issue_last k iv seq (omega arith)) tt
  | yes more ↦ rw (issue_more k iv seq more) (
    issue-ne k iv (seq + 1) seq hi (omega arith) (omega arith),
    issue-Distinct k iv (seq + 1) hi (omega arith),
  )
]
