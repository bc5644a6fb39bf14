-- ===== src/Wire/Record/Sealed.antt =====
-- Records on the wire.
use securelink.Crypto.Aead.{Aead, Laws, tag_len}
use securelink.Crypto.Nonce.{nonce_build}
use securelink.Common.{
  ℕ, ◌+◌, ◌-◌, ◌≤◌, ◌≡◌, refl, ◌≢◌, inl, inr, some, List, [], ◌++◌, append_assoc, append-nil, arith,
  Option-cases, length, length-append, ok, fault,
}
use securelink.Bytes.{u8, byte_at, pack_u16, unpack_u16}
use securelink.Bytes.Reads.{u16_at, byte_at-ok, unpack_u16-ok, bytes_at-ok, bytes_at-eq}
use securelink.Bytes.Fields.{join_u16-split}
use securelink.Wire.Record.{header_len, version, max_plaintext, peek_len, header, seal, unseal}

pub length-header : (kind n : ℕ) → length (header kind n) ≡ header_len
unfolding header pack_u16
length-header kind n = refl

-- The length that `sl_record_peek_len` reads from a sealed header is that of the whole record.
pub peek_len-header :
    (kind n : ℕ) (rest : List ℕ)
    → n ≤ max_plaintext
    → peek_len (header kind n ++ rest) ≡ ok (header_len + n + tag_len)
unfolding peek_len header unpack_u16 byte_at pack_u16
peek_len-header kind n rest h = ground (arith, join_u16-split version, join_u16-split (n + tag_len))

pub peek_len-ne-fault : (input : List ℕ) → header_len ≤ length input → peek_len input ≢ fault
unfolding peek_len
peek_len-ne-fault input h = ground (arith, unpack_u16-ok input 1, unpack_u16-ok input 3)

ct_len-header :
    (kind n : ℕ) (rest : List ℕ)
    → n ≤ max_plaintext
    → unpack_u16 (header kind n ++ rest) 3 ≡ ok (n + tag_len)
unfolding header unpack_u16 byte_at pack_u16
ct_len-header kind n rest h = ground (arith, join_u16-split (n + tag_len))

kind-header : (kind n : ℕ) (rest : List ℕ) → byte_at (header kind n ++ rest) 0 ≡ ok (u8 kind)
unfolding header byte_at
kind-header kind n rest = refl

module _ (aead : Aead) (laws : Laws aead) (key static_iv : List ℕ) (seq : ℕ) where
  -- What a successful `sl_record_seal` has checked and written.
  pub seal_inverse :
      (kind : ℕ) (pt : List ℕ) (out_cap : ℕ) (wire : List ℕ)
      → seal aead key static_iv seq kind pt out_cap ≡ ok wire
      → (ct : List ℕ) × (tag : List ℕ) × (length pt ≤ max_plaintext)
        × (aead.seal key (nonce_build static_iv seq) (header kind (length pt)) pt ≡ some (ct, tag))
        × (wire ≡ header kind (length pt) ++ (ct ++ tag))
  unfolding seal
  seal_inverse kind pt out_cap wire e =
      elim (Option-cases (aead.seal key (nonce_build static_iv seq) (header kind (length pt)) pt)) [
        | inl refused ↦ absurd (ground arith)
        | inr ((ct, tag), sealed) ↦ (ct, tag, ground arith, sealed, ground arith)
      ]

  -- `sl_record_open` opens what `sl_record_seal` sealed under the same key, IV and sequence number,
  -- and returns its type (cut to a byte) and its plaintext, where the caller has room for it.
  pub record_unseal-seal :
      (kind : ℕ) (pt : List ℕ) (out_cap pt_cap : ℕ) (wire : List ℕ)
      → length pt ≤ pt_cap
      → seal aead key static_iv seq kind pt out_cap ≡ ok wire
      → unseal aead key static_iv seq wire pt_cap ≡ ok (u8 kind, pt)
  unfolding unseal
  record_unseal-seal kind pt out_cap pt_cap wire room e =
      let (ct, tag, small, sealed, shape) = seal_inverse kind pt out_cap wire e in
      let hdr = header kind (length pt) in
      let nonce = nonce_build static_iv seq in
      ground (
        arith,
        shape,
        peek_len-header kind (length pt) (ct ++ tag) small,
        ct_len-header kind (length pt) (ct ++ tag) small,
        kind-header kind (length pt) (ct ++ tag),
        length-header kind (length pt),
        laws.length-ct key nonce hdr pt ct tag sealed,
        laws.length-tag key nonce hdr pt ct tag sealed,
        laws.unseal-seal key nonce hdr pt ct tag sealed,
        length-append hdr (ct ++ tag),
        length-append hdr ct,
        length-append ct tag,
        bytes_at-eq wire [] hdr (ct ++ tag) 0 header_len,
        bytes_at-eq wire hdr ct tag header_len (length pt),
        bytes_at-eq wire (hdr ++ ct) tag [] (header_len + length pt) tag_len,
        append_assoc hdr ct tag,
        append-nil tag,
      )

  -- No input makes `sl_record_open` read outside it.
  pub record_unseal-ne-fault :
      (wire : List ℕ) (pt_cap : ℕ) → unseal aead key static_iv seq wire pt_cap ≢ fault
  unfolding unseal peek_len
  record_unseal-ne-fault wire pt_cap = ground (
    arith,
    unpack_u16-ok wire 1,
    unpack_u16-ok wire 3,
    byte_at-ok wire 0,
    bytes_at-ok wire 0 header_len,
    bytes_at-ok wire header_len (u16_at wire 3 - tag_len),
    bytes_at-ok wire (header_len + (u16_at wire 3 - tag_len)) tag_len,
  )
