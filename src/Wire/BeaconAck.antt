-- ===== src/Wire/BeaconAck.antt =====
-- src/sl_beacon_ack.c and src/sl_beacon_ack_codec.c: the server's sealed answer to a beacon.
pub mod Sealed
use securelink.Crypto.Nonce.{nonce_build}
use securelink.Common.{
  ℕ, ◌+◌, Bool, true, false, not, ◌&&◌, ◌||◌, none, some, List, [], ◌++◌, ltb, ◌==◌, if◌then◌else◌,
  Outcome, ok, fail, ◌>>=◌, ◌>>◌, reject_if,
}
use securelink.Bytes.{bytes_at, pack_u16, pack_u32, pack_u64, unpack_u16, unpack_u32, unpack_u64}
use securelink.Crypto.Aead.{tag_len, Aead}

abbrev pub header_len : ℕ
header_len = 32

-- `SL_ACK_SHUTDOWN`, the last status
abbrev pub shutdown : ℕ
shutdown = 4

pub record BeaconAck : Type 0 where
  pub client_id : ℕ
  pub ack_sequence : ℕ
  pub server_time_ms : ℕ
  pub status : ℕ
  pub reserved : ℕ
  pub suggested_interval_ms : ℕ

-- `sl_beacon_ack_pack`
unfoldable pub ack_pack : BeaconAck → List ℕ
ack_pack a =
    pack_u64 a.client_id
    ++ (pack_u64 a.ack_sequence
        ++ (pack_u64 a.server_time_ms
            ++ (pack_u16 a.status ++ (pack_u16 0 ++ pack_u32 a.suggested_interval_ms))))

-- `sl_beacon_ack_unpack`
unfoldable pub ack_unpack : List ℕ → Outcome BeaconAck
ack_unpack input = do
  client_id ← unpack_u64 input 0
  ack_sequence ← unpack_u64 input 8
  server_time_ms ← unpack_u64 input 16
  status ← unpack_u16 input 24
  reserved ← unpack_u16 input 26
  suggested_interval_ms ← unpack_u32 input 28
  ok (record {
    client_id = client_id;
    ack_sequence = ack_sequence;
    server_time_ms = server_time_ms;
    status = status;
    reserved = reserved;
    suggested_interval_ms = suggested_interval_ms;
  })

-- `sl_beacon_ack_validate`, true for its 0
unfoldable pub ack_validate : BeaconAck → Bool
ack_validate a =
    if not (a.reserved == 0)
    then false
    else if a.ack_sequence == 0
    then false
    else if ltb shutdown a.status
    then false
    else if not (a.suggested_interval_ms == 0)
        && (ltb a.suggested_interval_ms 100 || ltb 600000 a.suggested_interval_ms)
    then false
    else true

module _ (aead : Aead) (key static_iv : List ℕ) (seq : ℕ) where
  -- `sl_beacon_ack_seal`: the header is the additional data of an empty message.
  unfoldable pub ack_seal : BeaconAck → Outcome (List ℕ)
  ack_seal a = do
    reject_if (not (ack_validate a))
    let aad = ack_pack a
    let nonce = nonce_build static_iv seq
    elim (aead.seal key nonce aad []) [ none ↦ fail | some (ct, tag) ↦ ok (aad ++ tag) ]

  -- `sl_beacon_ack_open`
  unfoldable pub ack_unseal : List ℕ → Outcome BeaconAck
  ack_unseal wire = do
    a ← ack_unpack wire
    reject_if (not (ack_validate a))
    aad ← bytes_at wire 0 header_len
    tag ← bytes_at wire header_len tag_len
    let nonce = nonce_build static_iv seq
    elim (aead.unseal key nonce aad [] tag) [ none ↦ fail | some pt ↦ ok a ]
