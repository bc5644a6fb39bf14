-- ===== src/Wire/Beacon/Sealed.antt =====
-- Beacons on the wire: what is sealed is opened, and what is opened is a valid beacon.
use securelink.Crypto.Aead.{Aead, Laws, tag_len}
use securelink.Crypto.Nonce.{nonce_build}
use securelink.Common.{
  ℕ, ◌+◌, ◌≤◌, ◌≡◌, refl, ap, ◌≢◌, inl, inr, true, some, List, [], ◌++◌, append_assoc, append-nil,
  arith, Option-cases, length, take, drop, replicate, length-append, length-take, length-drop,
  length-replicate, ok, fault,
}
use securelink.Bytes.{bytes_at}
use securelink.Bytes.Reads.{bytes_at-ok, bytes_at-eq}
use securelink.Wire.Beacon.{
  header_len, max_payload, Beacon, pack_header, unpack_header, validate, wire_size, seal, unseal,
}
use securelink.Wire.Beacon.Header.{
  Fits, length-pack_header, unpack_header-pack_header, header_of, payload-header_of,
  unpack_header-ok,
}

validate-payload_len : (b : Beacon) → validate b ≡ true → b.payload_len ≤ max_payload
unfolding validate
validate-payload_len b h = ground arith

-- Validation reads the header alone.
validate_header : (b : Beacon) (p : List ℕ) → validate (record b { payload = p }) ≡ validate b
unfolding validate
validate_header b p = refl

-- The payload array after a message of `n` bytes was decrypted into zeros.
abbrev pub zero_filled : Beacon → List ℕ
zero_filled b = take b.payload_len b.payload ++ drop b.payload_len (replicate max_payload 0)

module _ (aead : Aead) (laws : Laws aead) (key static_iv : List ℕ) (seq : ℕ) where
  seal_inverse :
      (b : Beacon) (wire : List ℕ)
      → seal aead key static_iv seq b ≡ ok wire
      → (ct : List ℕ) × (tag : List ℕ) × (validate b ≡ true)
        × (b.payload_len ≤ length b.payload)
        × (aead.seal key (nonce_build static_iv seq) (pack_header b) (take b.payload_len b.payload)
            ≡ some (ct, tag))
        × (wire ≡ pack_header b ++ (ct ++ tag))
  unfolding seal bytes_at
  seal_inverse b wire e =
      elim (Option-cases (
        aead.seal key (nonce_build static_iv seq) (pack_header b) (take b.payload_len b.payload))) [
          | inl none_sealed ↦ absurd (ground arith)
          | inr ((ct, tag), sealed) ↦ (ct, tag, ground arith, ground arith, sealed, ground arith)
        ]

  -- `sl_beacon_open` opens what `sl_beacon_seal` sealed under the same key, IV and sequence number,
  -- with fields that fit their C types: the same header and the same payload, with zeros behind it.
  pub beacon_unseal-seal :
      (b : Beacon) (wire : List ℕ)
      → Fits b
      → seal aead key static_iv seq b ≡ ok wire
      → unseal aead key static_iv seq wire ≡ ok (record b { payload = zero_filled b })
  unfolding unseal wire_size
  beacon_unseal-seal b wire f e =
      let (ct, tag, valid, inside, sealed, shape) = seal_inverse b wire e in
      let hdr = pack_header b in
      let nonce = nonce_build static_iv seq in
      let pt = take b.payload_len b.payload in
      ground (
        arith,
        valid,
        shape,
        unpack_header-pack_header b (ct ++ tag) f,
        validate_header b (replicate max_payload 0),
        length-pack_header b,
        laws.length-ct key nonce hdr pt ct tag sealed,
        laws.length-tag key nonce hdr pt ct tag sealed,
        laws.unseal-seal key nonce hdr pt ct tag sealed,
        length-take b.payload_len b.payload,
        length-append hdr (ct ++ tag),
        length-append hdr ct,
        length-append ct tag,
        bytes_at-eq wire [] hdr (ct ++ tag) 0 header_len,
        bytes_at-eq wire hdr ct tag header_len b.payload_len,
        bytes_at-eq wire (hdr ++ ct) tag [] (header_len + b.payload_len) tag_len,
        append_assoc hdr ct tag,
        append-nil tag,
      )

  -- No input makes `sl_beacon_open` read outside it.
  pub beacon_unseal-ne-fault : (wire : List ℕ) → unseal aead key static_iv seq wire ≢ fault
  unfolding unseal wire_size
  beacon_unseal-ne-fault wire = ground (
    arith,
    unpack_header-ok wire,
    bytes_at-ok wire 0 header_len,
    bytes_at-ok wire header_len (header_of wire).payload_len,
    bytes_at-ok wire (header_len + (header_of wire).payload_len) tag_len,
  )

  unseal_long :
      (wire : List ℕ) (b : Beacon)
      → unseal aead key static_iv seq wire ≡ ok b
      → header_len + tag_len ≤ length wire
  unfolding unseal
  unseal_long wire b e = ground arith

  unseal_accepts :
      (wire : List ℕ) (b hd : Beacon)
      → unpack_header wire ≡ ok hd
      → unseal aead key static_iv seq wire ≡ ok b
      → (validate hd ≡ true) × (length wire ≡ header_len + hd.payload_len + tag_len)
  unfolding unseal wire_size
  unseal_accepts wire b hd h e = ground arith

  unseal_payload :
      (wire : List ℕ) (b hd : Beacon)
      → unpack_header wire ≡ ok hd
      → unseal aead key static_iv seq wire ≡ ok b
      → (pt : List ℕ) × (length pt ≡ hd.payload_len)
        × (b ≡ record hd { payload = pt ++ drop hd.payload_len hd.payload })
  unfolding unseal wire_size
  unseal_payload wire b hd h e =
      let (valid, size) = unseal_accepts wire b hd h e in
      let nonce = nonce_build static_iv seq in
      let ct = take hd.payload_len (drop header_len wire) in
      let tag = take tag_len (drop (header_len + hd.payload_len) wire) in
      let aad = bytes_at-ok wire 0 header_len (omega arith) in
      let cts = bytes_at-ok wire header_len hd.payload_len (omega arith) in
      let tags = bytes_at-ok wire (header_len + hd.payload_len) tag_len (omega arith) in
      elim (Option-cases (aead.unseal key nonce (take header_len wire) ct tag)) [
        | inl refused ↦ absurd (ground (arith, h, valid, size, aad, cts, tags, refused))
        | inr (pt, eq) ↦ (
          pt,
          omega (
            arith,
            laws.length-pt key nonce (take header_len wire) ct tag pt eq,
            length-take hd.payload_len (drop header_len wire),
            length-drop header_len wire,
          ),
          ground (arith, h, valid, size, aad, cts, tags, eq),
        )
      ]

  -- The beacon that `sl_beacon_open` accepts passes `sl_beacon_validate`, the input has just the
  -- length that its header calls for, and the payload array keeps its size.
  pub beacon_unseal-valid :
      (wire : List ℕ) (b : Beacon)
      → unseal aead key static_iv seq wire ≡ ok b
      → (validate b ≡ true) × (length wire ≡ wire_size b) × (length b.payload ≡ max_payload)
  unfolding wire_size
  beacon_unseal-valid wire b e =
      let long = unseal_long wire b e in
      let hd = header_of wire in
      let read = unpack_header-ok wire (omega arith) in
      let (valid, size) = unseal_accepts wire b hd read e in
      let (pt, full, shape) = unseal_payload wire b hd read e in
      ground (
        arith,
        valid,
        size,
        full,
        shape,
        validate_header hd (pt ++ drop hd.payload_len hd.payload),
        validate-payload_len hd valid,
        length-append pt (drop hd.payload_len hd.payload),
        length-drop hd.payload_len hd.payload,
        ap length (payload-header_of wire),
        length-replicate {A = ℕ} max_payload 0,
      )
