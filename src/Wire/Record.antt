-- ===== src/Wire/Record.antt =====
-- src/sl_record.c: the sealed record, whose five-byte header is the additional data of the AEAD.
pub mod Sealed
use securelink.Crypto.Aead.{Aead, tag_len}
use securelink.Crypto.Nonce.{nonce_build}
use securelink.Common.{
  ℕ, ◌+◌, ◌-◌, not, ◌||◌, none, some, List, ◌∷◌, ◌++◌, ltb, ◌==◌, length, Outcome, ok, fail, ◌>>=◌,
  ◌>>◌, reject_if,
}
use securelink.Bytes.{u8, u16, byte_at, bytes_at, pack_u16, unpack_u16}

abbrev pub header_len : ℕ
header_len = 5

abbrev pub version : ℕ
version = 0x0301

abbrev pub max_plaintext : ℕ
max_plaintext = 16384

abbrev pub max_ciphertext : ℕ
max_ciphertext = max_plaintext + tag_len

-- `sl_record_peek_len`
unfoldable pub peek_len : List ℕ → Outcome ℕ
peek_len header = do
  ver ← unpack_u16 header 1
  reject_if (not (ver == version))
  ct_len ← unpack_u16 header 3
  reject_if (ltb ct_len tag_len || ltb max_ciphertext ct_len)
  ok (header_len + ct_len)

-- The header that `sl_record_seal` writes.
unfoldable pub header : ℕ → ℕ → List ℕ
header kind pt_len = u8 kind ∷ (pack_u16 version ++ pack_u16 (u16 (pt_len + tag_len)))

module _ (aead : Aead) (key static_iv : List ℕ) (seq : ℕ) where
  -- `sl_record_seal`: the bytes written at `out`.
  unfoldable pub seal : ℕ → List ℕ → ℕ → Outcome (List ℕ)
  seal kind pt out_cap = do
    reject_if (ltb max_plaintext (length pt))
    let need = header_len + length pt + tag_len
    reject_if (ltb out_cap need)
    let aad = header kind (length pt)
    let nonce = nonce_build static_iv seq
    elim (aead.seal key nonce aad pt) [ none ↦ fail | some (ct, tag) ↦ ok (aad ++ (ct ++ tag)) ]

  -- `sl_record_open`: the type and the plaintext. `wire_len` is the length of `wire`.
  unfoldable pub unseal : List ℕ → ℕ → Outcome (ℕ × List ℕ)
  unseal wire pt_cap = do
    reject_if (ltb (length wire) (header_len + tag_len))
    expected ← peek_len wire
    reject_if (not (expected == length wire))
    ct_len ← unpack_u16 wire 3
    let pt_len = ct_len - tag_len
    reject_if (ltb pt_cap pt_len)
    aad ← bytes_at wire 0 header_len
    ct ← bytes_at wire header_len pt_len
    tag ← bytes_at wire (header_len + pt_len) tag_len
    let nonce = nonce_build static_iv seq
    kind ← byte_at wire 0
    elim (aead.unseal key nonce aad ct tag) [ none ↦ fail | some pt ↦ ok (kind, pt) ]
