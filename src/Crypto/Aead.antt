-- ===== src/Crypto/Aead.antt =====
-- The contract of src/sl_aead.c, AES-256-GCM of OpenSSL, as inc/sl_aead.h documents it. The sealed
-- formats take it as a parameter.
use securelink.Common.{ℕ, ◌≡◌, Option, none, some, List, arith, ◌==◌, if◌then◌else◌, length, take}

abbrev pub key_len : ℕ
key_len = 32

abbrev pub iv_len : ℕ
iv_len = 12

abbrev pub tag_len : ℕ
tag_len = 16

-- `none` is the return value -1 of `sl_aead_seal` and `sl_aead_open`.
pub record Aead : Type 0 where
  -- key, iv, aad and plaintext to ciphertext and tag
  pub seal : List ℕ → List ℕ → List ℕ → List ℕ → Option (List ℕ × List ℕ)
  -- key, iv, aad, ciphertext and tag to plaintext
  pub unseal : List ℕ → List ℕ → List ℕ → List ℕ → List ℕ → Option (List ℕ)

pub record Laws (a : Aead) : Type 0 where
  pub length-ct : (k n d p c t : List ℕ) → a.seal k n d p ≡ some (c, t) → length c ≡ length p
  pub length-tag : (k n d p c t : List ℕ) → a.seal k n d p ≡ some (c, t) → length t ≡ tag_len
  pub unseal-seal :
      (k n d p c t : List ℕ) → a.seal k n d p ≡ some (c, t) → a.unseal k n d c t ≡ some p
  pub length-pt : (k n d c t p : List ℕ) → a.unseal k n d c t ≡ some p → length p ≡ length c

-- An instance, which shows that the laws can hold: the bytes as they are, under a tag of the key's
-- first sixteen bytes.
abbrev pub plain : Aead
plain = record {
  seal = λ k n d p. if length (take tag_len k) == tag_len then some (p, take tag_len k) else none;
  unseal = λ k n d c t. some c;
}

pub plain-Laws : Laws plain
plain-Laws = record {
  length-ct = λ k n d p c t h. ground arith;
  length-tag = λ k n d p c t h. ground arith;
  unseal-seal = λ k n d p c t h. ground arith;
  length-pt = λ k n d c t p h. ground arith;
}
