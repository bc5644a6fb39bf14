-- ===== src/Wire/Beacon.antt =====
-- src/sl_beacon.c and src/sl_beacon_codec.c: the heartbeat that a client sends, sealed.
pub mod Header
pub mod Sealed
use securelink.Crypto.Aead.{Aead, tag_len}
use securelink.Crypto.Nonce.{nonce_build}
use securelink.Common.{
  ℕ, ◌+◌, ◌-◌, bit_and, Bool, true, false, not, ◌&&◌, ◌||◌, none, some, List, ◌++◌, ltb, ◌==◌,
  if◌then◌else◌, length, drop, replicate, Outcome, ok, fail, ◌>>=◌, ◌>>◌, reject_if,
}
use securelink.Bytes.{bytes_at, pack_u16, pack_u32, pack_u64, unpack_u16, unpack_u32, unpack_u64}

abbrev pub header_len : ℕ
header_len = 32

abbrev pub max_payload : ℕ
max_payload = 1024

-- `SL_BEACON_FLAG_REQUEST_ACK | SL_BEACON_FLAG_LAST`; the code masks with its complement in 16 bits.
abbrev pub unknown_flags : ℕ
unknown_flags = 0xffff - 3

-- `payload` is the array of `SL_BEACON_MAX_PAYLOAD` bytes, of which `payload_len` count.
pub record Beacon : Type 0 where
  pub client_id : ℕ
  pub sequence : ℕ
  pub timestamp_ms : ℕ
  pub interval_ms : ℕ
  pub payload_len : ℕ
  pub flags : ℕ
  pub payload : List ℕ

-- `sl_beacon_pack_header`
unfoldable pub pack_header : Beacon → List ℕ
pack_header b =
    pack_u64 b.client_id
    ++ (pack_u64 b.sequence
        ++ (pack_u64 b.timestamp_ms
            ++ (pack_u32 b.interval_ms ++ (pack_u16 b.payload_len ++ pack_u16 b.flags))))

-- `sl_beacon_unpack_header`: the payload is set to zeros.
unfoldable pub unpack_header : List ℕ → Outcome Beacon
unpack_header input = do
  client_id ← unpack_u64 input 0
  sequence ← unpack_u64 input 8
  timestamp_ms ← unpack_u64 input 16
  interval_ms ← unpack_u32 input 24
  payload_len ← unpack_u16 input 28
  flags ← unpack_u16 input 30
  ok (record {
    client_id = client_id;
    sequence = sequence;
    timestamp_ms = timestamp_ms;
    interval_ms = interval_ms;
    payload_len = payload_len;
    flags = flags;
    payload = replicate max_payload 0;
  })

-- `sl_beacon_validate`, true for its 0
unfoldable pub validate : Beacon → Bool
validate b =
    if b.sequence == 0
    then false
    else if ltb max_payload b.payload_len
    then false
    else if not (bit_and b.flags unknown_flags == 0)
    then false
    else if not (b.interval_ms == 0) && (ltb b.interval_ms 100 || ltb 600000 b.interval_ms)
    then false
    else true

-- `sl_beacon_wire_size`
unfoldable pub wire_size : Beacon → ℕ
wire_size b = header_len + b.payload_len + tag_len

module _ (aead : Aead) (key static_iv : List ℕ) (seq : ℕ) where
  -- `sl_beacon_seal`: the bytes at `wire_out`, `*wire_len_out` of them. (The ciphertext is as long
  -- as the payload.)
  unfoldable pub seal : Beacon → Outcome (List ℕ)
  seal b = do
    reject_if (not (validate b))
    let aad = pack_header b
    let nonce = nonce_build static_iv seq
    pt ← bytes_at b.payload 0 b.payload_len
    elim (aead.seal key nonce aad pt) [ none ↦ fail | some (ct, tag) ↦ ok (aad ++ (ct ++ tag)) ]

  -- `sl_beacon_open`: the decrypted bytes land in front of the zeroed payload.
  unfoldable pub unseal : List ℕ → Outcome Beacon
  unseal wire = do
    reject_if (ltb (length wire) (header_len + tag_len))
    b ← unpack_header wire
    reject_if (not (validate b))
    reject_if (not (length wire == wire_size b))
    aad ← bytes_at wire 0 header_len
    ct ← bytes_at wire header_len b.payload_len
    tag ← bytes_at wire (header_len + b.payload_len) tag_len
    let nonce = nonce_build static_iv seq
    elim (aead.unseal key nonce aad ct tag) [
      | none ↦ fail
      | some pt ↦ ok (record b { payload = pt ++ drop b.payload_len b.payload })
    ]
