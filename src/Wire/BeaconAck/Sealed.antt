-- ===== src/Wire/BeaconAck/Sealed.antt =====
-- Acknowledgements on the wire.
use securelink.Crypto.Nonce.{nonce_build}
use securelink.Common.{
  ℕ, ◌+◌, ◌^◌, ◌≤◌, ◌<◌, ◌≡◌, refl, ap, ◌∙◌, ◌⊎◌, inl, inr, true, some, List, [], ◌∷◌, ◌++◌,
  append-nil, arith, Bool-cases, Option-cases, length, take, drop, ok, fail,
}
use securelink.Bytes.{pack_u16, pack_u32, pack_u64}
use securelink.Bytes.Reads.{
  u16_at, u32_at, u64_at, unpack_u16-ok, unpack_u32-ok, unpack_u64-ok, bytes_at-ok, bytes_at-eq,
  unpack_u16-eq, unpack_u32-eq, unpack_u64-eq,
}
use securelink.Crypto.Aead.{tag_len, Aead, Laws}
use securelink.Wire.BeaconAck.{
  header_len, BeaconAck, ack_pack, ack_unpack, ack_validate, ack_seal, ack_unseal,
}

-- The fields fit their C types.
pub record FitsAck (a : BeaconAck) : Type 0 where
  pub client_id : a.client_id < 2 ^ 64
  pub ack_sequence : a.ack_sequence < 2 ^ 64
  pub server_time_ms : a.server_time_ms < 2 ^ 64
  pub status : a.status < 2 ^ 16
  pub suggested_interval_ms : a.suggested_interval_ms < 2 ^ 32

length-ack_pack : (a : BeaconAck) → length (ack_pack a) ≡ header_len
unfolding ack_pack pack_u64 pack_u32 pack_u16
length-ack_pack a = refl

ack_unpack-ack_pack :
    (a : BeaconAck) (rest : List ℕ)
    → FitsAck a
    → ack_unpack (ack_pack a ++ rest) ≡ ok (record a { reserved = 0 })
unfolding ack_unpack ack_pack pack_u64 pack_u32 pack_u16
ack_unpack-ack_pack a rest f =
    let wire = ack_pack a ++ rest in
    let ends = pack_u16 0 ++ (pack_u32 a.suggested_interval_ms ++ rest) in
    let tail = pack_u16 a.status ++ ends in
    let id = pack_u64 a.client_id in
    let sq = pack_u64 a.ack_sequence in
    let ts = pack_u64 a.server_time_ms in
    let st = pack_u16 a.status in
    rw (
      unpack_u64-eq wire [] (sq ++ (ts ++ tail)) a.client_id 0 f.client_id refl refl,
      unpack_u64-eq wire id (ts ++ tail) a.ack_sequence 8 f.ack_sequence refl refl,
      unpack_u64-eq wire (id ++ sq) tail a.server_time_ms 16 f.server_time_ms refl refl,
      unpack_u16-eq wire (id ++ (sq ++ ts)) ends a.status 24 f.status refl refl,
      unpack_u16-eq wire (id ++ (sq ++ (ts ++ st))) (pack_u32 a.suggested_interval_ms ++ rest) 0 26
          (omega arith) refl refl,
      unpack_u32-eq wire (id ++ (sq ++ (ts ++ (st ++ pack_u16 0)))) rest a.suggested_interval_ms 28
          f.suggested_interval_ms refl refl,
    )

ack_unpack-ok :
    (wire : List ℕ) → header_len ≤ length wire → (a : BeaconAck) × (ack_unpack wire ≡ ok a)
unfolding ack_unpack
ack_unpack-ok wire h = (
  record {
    client_id = u64_at wire 0;
    ack_sequence = u64_at wire 8;
    server_time_ms = u64_at wire 16;
    status = u16_at wire 24;
    reserved = u16_at wire 26;
    suggested_interval_ms = u32_at wire 28;
  },
  rw
      (
        ack_unpack,
        unpack_u64-ok wire 0 (omega arith),
        unpack_u64-ok wire 8 (omega arith),
        unpack_u64-ok wire 16 (omega arith),
        unpack_u16-ok wire 24 (omega arith),
        unpack_u16-ok wire 26 (omega arith),
        unpack_u32-ok wire 28 (omega arith),
      )
      refl,
)

module _ (aead : Aead) (laws : Laws aead) (key static_iv : List ℕ) (seq : ℕ) where
  ack_seal_inverse :
      (a : BeaconAck) (wire : List ℕ)
      → ack_seal aead key static_iv seq a ≡ ok wire
      → (tag : List ℕ) × (ack_validate a ≡ true)
        × (aead.seal key (nonce_build static_iv seq) (ack_pack a) [] ≡ some ([], tag))
        × (wire ≡ ack_pack a ++ tag)
  unfolding ack_seal
  ack_seal_inverse a wire e =
      elim (Option-cases (aead.seal key (nonce_build static_iv seq) (ack_pack a) [])) [
        | inl refused ↦ absurd (ground arith)
        | inr ((ct, tag), sealed) ↦
            let empty : ct ≡ [] =
              no_bytes ct
                (laws.length-ct key (nonce_build static_iv seq) (ack_pack a) [] ct tag sealed) in
            (tag, ground arith, sealed ∙ ap (λ (c : List ℕ). some (c, tag)) empty, ground arith)
      ]
    where
      no_bytes : (ys : List ℕ) → length ys ≡ 0 → ys ≡ []
      no_bytes [] h = refl
      no_bytes (y ∷ ys) h = absurd (omega arith)

  -- `sl_beacon_ack_open` opens what `sl_beacon_ack_seal` sealed under the same key, IV and sequence
  -- number, and returns it as it was, where its fields fit their C types.
  pub ack_unseal-seal :
      (a : BeaconAck) (wire : List ℕ)
      → FitsAck a
      → ack_seal aead key static_iv seq a ≡ ok wire
      → ack_unseal aead key static_iv seq wire ≡ ok a
  unfolding ack_unseal
  ack_unseal-seal a wire f e =
      let (tag, valid, sealed, shape) = ack_seal_inverse a wire e in
      let hdr = ack_pack a in
      let nonce = nonce_build static_iv seq in
      let zero_reserved : a.reserved ≡ 0 = reserved_zero a valid in
      ground (
        arith,
        valid,
        shape,
        zero_reserved,
        ack_unpack-ack_pack a tag f,
        length-ack_pack a,
        laws.length-tag key nonce hdr [] [] tag sealed,
        laws.unseal-seal key nonce hdr [] [] tag sealed,
        bytes_at-eq wire [] hdr tag 0 header_len,
        bytes_at-eq wire hdr tag [] header_len tag_len,
        append-nil tag,
      )
    where
      reserved_zero : (a : BeaconAck) → ack_validate a ≡ true → a.reserved ≡ 0
      reserved_zero a h = unfold ack_validate in ground arith

  -- From the 48 bytes of the format, `sl_beacon_ack_open` reads none outside them, and what it
  -- accepts passes `sl_beacon_ack_validate`.
  pub ack_unseal-valid :
      (wire : List ℕ)
      → length wire ≡ header_len + tag_len
      → (ack_unseal aead key static_iv seq wire ≡ fail)
        ⊎ ((a : BeaconAck) × (ack_unseal aead key static_iv seq wire ≡ ok a)
            × (ack_validate a ≡ true))
  unfolding ack_unseal
  ack_unseal-valid wire h =
      let (a, read) = ack_unpack-ok wire (omega arith) in
      let nonce = nonce_build static_iv seq in
      let aad = take header_len (drop 0 wire) in
      let tag = take tag_len (drop header_len wire) in
      let ra = bytes_at-ok wire 0 header_len (omega arith) in
      let rt = bytes_at-ok wire header_len tag_len (omega arith) in
      elim (Bool-cases (ack_validate a)) [
        | inr bad ↦ inl (rw (ack_unseal, read, bad) refl)
        | inl valid ↦ elim (Option-cases (aead.unseal key nonce aad [] tag)) [
          | inl refused ↦ inl (rw (ack_unseal, read, valid, ra, rt, refused) refl)
          | inr (pt, opened) ↦ inr (a, rw (ack_unseal, read, valid, ra, rt, opened) refl, valid)
        ]
      ]
