-- ===== src/Tests/Sealed.antt =====
-- Records, beacons and nonces, sealed with the cipher `plain`.
use securelink.Common.{
  ℕ, ◌-◌, ◌≡◌, refl, true, some, List, [], ◌∷◌, ◌++◌, arith, length, take, replicate, ok,
}
use securelink.Bytes.{bytes_at, pack_u16, pack_u32, pack_u64}
use securelink.Crypto.Aead.{plain, plain-Laws}
use securelink.Crypto.Nonce.{u64_max}
use securelink.Crypto.Nonce.Fresh.{issue, Distinct, issue-Distinct}
use securelink.Wire.Record
use securelink.Wire.Record.Sealed.{record_unseal-seal}
use securelink.Wire.Beacon
use securelink.Wire.Beacon.{Beacon}
use securelink.Wire.Beacon.Header.{Fits}
use securelink.Wire.Beacon.Sealed.{beacon_unseal-seal, beacon_unseal-valid, zero_filled}
use securelink.Buffer.RecvBuf
use securelink.Buffer.RecvBuf.{RecvBuf}
use securelink.Buffer.RecvBuf.Records.{take_record-seal}

abbrev key : List ℕ
key = replicate 32 7

abbrev iv : List ℕ
iv = 1 ∷ 2 ∷ 3 ∷ 4 ∷ 5 ∷ 6 ∷ 7 ∷ 8 ∷ 9 ∷ 10 ∷ 11 ∷ 12 ∷ []

abbrev text : List ℕ
text = 104 ∷ 105 ∷ []

abbrev sealed_text : List ℕ
sealed_text = 23 ∷ 3 ∷ 1 ∷ 0 ∷ 18 ∷ 104 ∷ 105 ∷ replicate 16 7

text_seals : Record.seal plain key iv 5 23 text 100 ≡ ok sealed_text
unfolding Record.seal Record.header pack_u16
text_seals = refl

record_unseal-seal_example : Record.unseal plain key iv 5 sealed_text 2 ≡ ok (23, text)
record_unseal-seal_example =
    record_unseal-seal plain plain-Laws key iv 5 23 text 100 2 sealed_text (omega arith) text_seals

-- A record and a half in a buffer of sixty-four bytes
abbrev received : RecvBuf
received = record {
  buf = sealed_text ++ (take 13 sealed_text ++ replicate 28 0);
  cap = 64;
  used = 36;
}

received-IsValid : RecvBuf.IsValid received
received-IsValid = record { storage = refl; within = omega arith }

take_record-seal_example :
    (RecvBuf.view (RecvBuf.take_record received 40) ≡ ok (some sealed_text, take 13 sealed_text))
    × (Record.unseal plain key iv 5 sealed_text 2 ≡ ok (23, text))
take_record-seal_example =
    take_record-seal plain plain-Laws key iv 5 23 text 100 40 sealed_text (take 13 sealed_text)
      received received-IsValid text_seals refl (omega arith)

issue-Distinct_example : Distinct (issue 3 iv (u64_max - 2))
issue-Distinct_example = issue-Distinct 3 iv (u64_max - 2) refl (omega arith)

abbrev beat : Beacon
beat = record {
  client_id = 77;
  sequence = 9;
  timestamp_ms = 1700000000000;
  interval_ms = 5000;
  payload_len = 2;
  flags = 1;
  payload = 104 ∷ 105 ∷ replicate 1022 0;
}

abbrev beat_wire : List ℕ
beat_wire =
    0
    ∷ 0
    ∷ 0
    ∷ 0
    ∷ 0
    ∷ 0
    ∷ 0
    ∷ 77
    ∷ 0
    ∷ 0
    ∷ 0
    ∷ 0
    ∷ 0
    ∷ 0
    ∷ 0
    ∷ 9
    ∷ 0
    ∷ 0
    ∷ 1
    ∷ 139
    ∷ 207
    ∷ 229
    ∷ 104
    ∷ 0
    ∷ 0
    ∷ 0
    ∷ 19
    ∷ 136
    ∷ 0
    ∷ 2
    ∷ 0
    ∷ 1
    ∷ 104
    ∷ 105
    ∷ replicate 16 7

beat_seals : Beacon.seal plain key iv 9 beat ≡ ok beat_wire
unfolding Beacon.seal Beacon.validate Beacon.pack_header pack_u64 pack_u32 pack_u16 bytes_at
beat_seals = refl

beat-Fits : Fits beat
beat-Fits = record {
  client_id = omega arith;
  sequence = omega arith;
  timestamp_ms = omega arith;
  interval_ms = omega arith;
  payload_len = omega arith;
  flags = omega arith;
}

beat-opened :
    Beacon.unseal plain key iv 9 beat_wire ≡ ok (record beat { payload = zero_filled beat })
beat-opened = beacon_unseal-seal plain plain-Laws key iv 9 beat beat_wire beat-Fits beat_seals

beacon_unseal-valid_example :
    (Beacon.validate (record beat { payload = zero_filled beat }) ≡ true)
    × (length beat_wire ≡ Beacon.wire_size (record beat { payload = zero_filled beat }))
    × (length (zero_filled beat) ≡ Beacon.max_payload)
beacon_unseal-valid_example =
    beacon_unseal-valid plain plain-Laws key iv 9 beat_wire
      (record beat { payload = zero_filled beat }) beat-opened
