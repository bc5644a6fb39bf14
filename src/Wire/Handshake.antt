-- ===== src/Wire/Handshake.antt =====
-- src/sl_handshake_msg.c, src/sl_alert.c, src/sl_alert_ext.c and src/sl_close_notify.c: the header of
-- a handshake message, the hello, and the alerts.
pub mod Codec
use securelink.Common.{
  ℕ, ◌+◌, ◌*◌, ◌/◌, ◌^◌, bit_or, Bool, false, not, ◌&&◌, List, [], ◌∷◌, ◌++◌, ltb, ◌==◌, length,
  Outcome, ok, ◌>>=◌, ◌>>◌, reject_if,
}
use securelink.Bytes.{u8, byte_at, bytes_at, pack_u16, unpack_u16}

abbrev pub random_len : ℕ
random_len = 32

abbrev pub ecdh_pubkey_len : ℕ
ecdh_pubkey_len = 65

abbrev pub max_payload : ℕ
max_payload = 2048

abbrev pub hello_body_len : ℕ
hello_body_len = random_len + ecdh_pubkey_len + 2

-- `random` and `ecdh_pub` are arrays of `random_len` and `ecdh_pubkey_len` bytes.
pub record Hello : Type 0 where
  pub random : List ℕ
  pub ecdh_pub : List ℕ
  pub cipher : ℕ

-- `sl_hs_pack_header`
unfoldable pub pack_header : ℕ → ℕ → Outcome (List ℕ)
pack_header kind payload_len = do
  reject_if (ltb 0xffffff payload_len)
  ok (u8 kind ∷ u8 (payload_len / 2 ^ 16) ∷ u8 (payload_len / 2 ^ 8) ∷ u8 payload_len ∷ [])

-- The three bytes of a length
unfoldable pub join_u24 : ℕ → ℕ → ℕ → ℕ
join_u24 a b c = bit_or (bit_or (a * 2 ^ 16) (b * 2 ^ 8)) c

-- `sl_hs_unpack_header`: the type and the length.
unfoldable pub unpack_header : List ℕ → Outcome (ℕ × ℕ)
unpack_header input = do
  kind ← byte_at input 0
  a ← byte_at input 1
  b ← byte_at input 2
  c ← byte_at input 3
  reject_if (ltb max_payload (join_u24 a b c))
  ok (kind, join_u24 a b c)

-- `sl_hs_pack_hello`: the bytes written at `out`.
unfoldable pub pack_hello : Hello → ℕ → Outcome (List ℕ)
pack_hello h out_cap = do
  reject_if (ltb out_cap hello_body_len)
  random ← bytes_at h.random 0 random_len
  ecdh_pub ← bytes_at h.ecdh_pub 0 ecdh_pubkey_len
  ok (random ++ (ecdh_pub ++ pack_u16 h.cipher))

-- `sl_hs_unpack_hello`
unfoldable pub unpack_hello : List ℕ → Outcome Hello
unpack_hello input = do
  reject_if (not (length input == hello_body_len))
  random ← bytes_at input 0 random_len
  ecdh_pub ← bytes_at input random_len ecdh_pubkey_len
  cipher ← unpack_u16 input (random_len + ecdh_pubkey_len)
  ok (record { random = random; ecdh_pub = ecdh_pub; cipher = cipher })

abbrev pub level_warning : ℕ
level_warning = 1

abbrev pub level_fatal : ℕ
level_fatal = 2

-- `sl_alert_pack`
unfoldable pub alert_pack : ℕ → ℕ → Outcome (List ℕ)
alert_pack level code = do
  reject_if (not (level == level_warning) && not (level == level_fatal))
  ok (level ∷ u8 code ∷ [])

-- `sl_alert_unpack`: the level and the code.
unfoldable pub alert_unpack : List ℕ → Outcome (ℕ × ℕ)
alert_unpack input = do
  level ← byte_at input 0
  reject_if (not (level == level_warning) && not (level == level_fatal))
  code ← byte_at input 1
  ok (level, code)

-- `sl_alert_ext_pack`
unfoldable pub alert_ext_pack : ℕ → ℕ → ℕ → Outcome (List ℕ)
alert_ext_pack level legacy diag = do
  reject_if (not (level == level_warning) && not (level == level_fatal))
  ok (level ∷ u8 legacy ∷ pack_u16 diag)

-- `sl_alert_ext_unpack`: the level, the code and the diagnosis.
unfoldable pub alert_ext_unpack : List ℕ → Outcome (ℕ × ℕ × ℕ)
alert_ext_unpack input = do
  level ← byte_at input 0
  reject_if (not (level == level_warning) && not (level == level_fatal))
  legacy ← byte_at input 1
  diag ← unpack_u16 input 2
  ok (level, legacy, diag)

-- `SL_ALERT_CLOSE_NOTIFY`
abbrev pub close_notify : ℕ
close_notify = 0

-- `sl_close_notify_pack`
unfoldable pub close_notify_pack : List ℕ
close_notify_pack = level_fatal ∷ close_notify ∷ []

-- `sl_close_notify_is`
unfoldable pub close_notify_is : List ℕ → Bool
close_notify_is [] = false
close_notify_is (a ∷ []) = false
close_notify_is (a ∷ b ∷ []) = (a == level_fatal) && (b == close_notify)
close_notify_is (a ∷ b ∷ c ∷ rest) = false
