-- ===== src/Wire/Handshake/Codec.antt =====
-- Handshake messages and alerts, packed and unpacked.
use securelink.Common.Bits.{bit_or-shift}
use securelink.Common.{
  ℕ, ◌+◌, ◌*◌, ◌/◌, ◌^◌, ◌<◌, bit_or, ◌≡◌, refl, sym, ap, ◌∙◌, ◌⊎◌, true, List, [], ◌∷◌, ◌++◌,
  append_assoc, append-nil, arith, ltb, if◌then◌else◌, length, length-append, ok, fail,
}
use securelink.Bytes.{u8, IsByte, byte_at, pack_u16, unpack_u16}
use securelink.Bytes.Reads.{bytes_at-eq, unpack_u16-eq}
use securelink.Bytes.Fields.{join_u16-split}
use securelink.Wire.Handshake.{
  random_len, ecdh_pubkey_len, max_payload, hello_body_len, Hello, pack_header, join_u24,
  unpack_header, pack_hello, unpack_hello, level_warning, level_fatal, alert_pack, alert_unpack,
  alert_ext_pack, alert_ext_unpack, close_notify, close_notify_pack, close_notify_is,
}

join_u24_lem :
    (a b c : ℕ) → IsByte a → IsByte b → IsByte c → join_u24 a b c ≡ a * 2 ^ 16 + b * 2 ^ 8 + c
unfolding join_u24
join_u24_lem a b c ha hb hc = omega (
  arith,
  bit_or-shift 16 a (b * 2 ^ 8) (omega arith),
  ap (λ (x : ℕ). bit_or x c) (bit_or-shift 16 a (b * 2 ^ 8) (omega arith)),
  bit_or-shift 8 (a * 2 ^ 8 + b) c hc,
  ap (λ (x : ℕ). bit_or x c) {x = (a * 2 ^ 8 + b) * 2 ^ 8} {y = a * 2 ^ 16 + b * 2 ^ 8}
      (omega arith),
)

join_u24-split : (v : ℕ) → v < 2 ^ 24 → join_u24 (u8 (v / 2 ^ 16)) (u8 (v / 2 ^ 8)) (u8 v) ≡ v
join_u24-split v h = omega (
  arith,
  join_u24_lem (u8 (v / 2 ^ 16)) (u8 (v / 2 ^ 8)) (u8 v) (omega arith) (omega arith) (omega arith),
)

-- A header that `sl_hs_pack_header` wrote is read back as it was, and refused where its length is more
-- than a message may have.
pub hs_unpack-pack :
    (kind n : ℕ) (wire rest : List ℕ)
    → kind < 2 ^ 8
    → pack_header kind n ≡ ok wire
    → unpack_header (wire ++ rest) ≡ (if ltb max_payload n then fail else ok (kind, n))
unfolding pack_header unpack_header byte_at
hs_unpack-pack kind n wire rest h e = ground (arith, join_u24-split n)

-- `sl_hs_unpack_hello` reads back the hello that was packed.
pub hello_unpack-pack :
    (h : Hello) (out_cap : ℕ) (wire : List ℕ)
    → length h.random ≡ random_len
    → length h.ecdh_pub ≡ ecdh_pubkey_len
    → h.cipher < 2 ^ 16
    → pack_hello h out_cap ≡ ok wire
    → unpack_hello wire ≡ ok h
unfolding pack_hello unpack_hello
hello_unpack-pack h out_cap wire hr hp hc e =
    let p1 =
      bytes_at-eq h.random [] h.random [] 0 random_len (sym (append-nil h.random)) refl (sym hr) in
    let p2 =
      bytes_at-eq h.ecdh_pub [] h.ecdh_pub [] 0 ecdh_pubkey_len (sym (append-nil h.ecdh_pub)) refl
        (sym hp) in
    let back = pack_u16 h.cipher in
    let shape : wire ≡ h.random ++ (h.ecdh_pub ++ back) = ground (arith, p1, p2) in
    let size : length wire ≡ hello_body_len =
      ap (λ (t : List ℕ). length t) shape
      ∙ (unfold pack_u16 in
          omega
            (arith, length-append h.random (h.ecdh_pub ++ back), length-append h.ecdh_pub back)) in
    let r1 = bytes_at-eq wire [] h.random (h.ecdh_pub ++ back) 0 random_len shape refl (sym hr) in
    let r2 =
      bytes_at-eq wire h.random h.ecdh_pub back random_len ecdh_pubkey_len shape (sym hr)
        (sym hp) in
    let r3 =
      unpack_u16-eq wire (h.random ++ h.ecdh_pub) [] h.cipher (random_len + ecdh_pubkey_len) hc
        (shape
          ∙ sym (append_assoc h.random h.ecdh_pub back)
          ∙ ap (λ (t : List ℕ). (h.random ++ h.ecdh_pub) ++ t) (sym (append-nil back)))
        (omega (arith, length-append h.random h.ecdh_pub)) in
    ground (arith, size, r1, r2, r3)

-- `sl_alert_unpack` reads back the alert that was packed, whose code fits a byte, and takes no level
-- but the two.
pub alert_unpack-pack :
    (level code : ℕ) (wire rest : List ℕ)
    → code < 2 ^ 8
    → alert_pack level code ≡ ok wire
    → (alert_unpack (wire ++ rest) ≡ ok (level, code))
      × ((level ≡ level_warning) ⊎ (level ≡ level_fatal))
unfolding alert_pack alert_unpack byte_at
alert_unpack-pack level code wire rest h e = ground arith

-- `sl_alert_ext_unpack` reads back the extended alert that was packed, and `sl_alert_unpack` reads the
-- first two bytes of it as the plain alert that it extends.
pub alert_ext_unpack-pack :
    (level legacy diag : ℕ) (wire rest : List ℕ)
    → legacy < 2 ^ 8
    → diag < 2 ^ 16
    → alert_ext_pack level legacy diag ≡ ok wire
    → (alert_ext_unpack (wire ++ rest) ≡ ok (level, legacy, diag))
      × (alert_unpack (wire ++ rest) ≡ ok (level, legacy))
unfolding alert_ext_pack alert_ext_unpack alert_unpack byte_at unpack_u16 pack_u16
alert_ext_unpack-pack level legacy diag wire rest hl hd e = ground (arith, join_u16-split diag)

-- The close notice is the one input that `sl_close_notify_is` takes for one, and a fatal alert to
-- `sl_alert_unpack`.
pub close_notify_lem :
    (input : List ℕ)
    → close_notify_is input ≡ true
    → (input ≡ close_notify_pack) × (alert_unpack input ≡ ok (level_fatal, close_notify))
unfolding close_notify_is close_notify_pack alert_unpack byte_at
close_notify_lem [] h = ground arith
close_notify_lem (a ∷ []) h = ground arith
close_notify_lem (a ∷ b ∷ []) h = ground arith
close_notify_lem (a ∷ b ∷ c ∷ rest) h = ground arith
