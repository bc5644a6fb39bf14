-- ===== src/Tests/Offers.antt =====
-- Offers, extensions, acknowledgements, files and identifiers.
use securelink.Common.{
  ℕ, ◌≡◌, refl, ◌⊎◌, true, false, ◌&&◌, List, [], ◌∷◌, ◌++◌, arith, if◌then◌else◌, take, replicate,
  ok, fail,
}
use securelink.Bytes.{bytes_at, pack_u16, pack_u32, pack_u64}
use securelink.Crypto.Aead.{plain}
use securelink.Wire.Offer.{
  list_has, pairs, list_encode, cipher_choose, cipher_list_has, is_supported,
}
use securelink.Wire.Offer.Codec.{IsOffer}
use securelink.Wire.Offer.Choice.{first_common, cipher_choose_lem}
use securelink.Wire.Extensions.{Extension, inner_len, items, ext_encode, ext_decode}
use securelink.Wire.Extensions.Codec.{IsList, ext_decode-total}
use securelink.Wire.BeaconAck.{BeaconAck, ack_pack, ack_validate, ack_seal}
use securelink.Wire.BeaconAck.Sealed.{FitsAck}
use securelink.Wire.FileMeta.{
  FileMeta, chars_ok, dots_ahead, expected_chunks, meta_validate, meta_pack,
}

abbrev ours : List ℕ
ours = 0x0101 ∷ 0x0100 ∷ []

abbrev theirs : List ℕ
theirs = 0x0102 ∷ 0x0100 ∷ []

ours-has : list_has ours 0x0100 ≡ true
unfolding list_has
ours-has = refl

theirs-has : list_has theirs 0x0100 ≡ true
unfolding list_has
theirs-has = refl

cipher_choose_lem_example :
    (cipher_choose (2 ∷ 1 ∷ []) (1 ∷ 2 ∷ [])
      ≡ (if list_has (2 ∷ 1 ∷ []) 1 && list_has (1 ∷ 2 ∷ []) 1 then 1 else 0))
    × ((cipher_choose (2 ∷ 1 ∷ []) (1 ∷ 2 ∷ []) ≡ first_common (2 ∷ 1 ∷ []) (1 ∷ 2 ∷ []))
        ⊎ (is_supported (first_common (2 ∷ 1 ∷ []) (1 ∷ 2 ∷ [])) ≡ false))
cipher_choose_lem_example = cipher_choose_lem (2 ∷ 1 ∷ []) (1 ∷ 2 ∷ [])

-- Both have 2, which the server prefers, and 1 is chosen.
passed_over : cipher_choose (2 ∷ 1 ∷ []) (1 ∷ 2 ∷ []) ≡ 1
unfolding cipher_choose cipher_list_has is_supported list_has
passed_over = refl

abbrev ours_wire : List ℕ
ours_wire = 2 ∷ 1 ∷ 1 ∷ 1 ∷ 0 ∷ []

ours-encode : list_encode ours 5 ≡ ok ours_wire
unfolding list_encode pairs pack_u16
ours-encode = refl

ours-IsOffer : IsOffer ours
unfolding list_has
ours-IsOffer = record { distinct = (refl, (refl, tt)); short = omega arith }

abbrev exts : List Extension
exts = record { kind = 3; body = 104 ∷ 105 ∷ [] } ∷ record { kind = 6; body = [] } ∷ []

abbrev exts_wire : List ℕ
exts_wire = 0 ∷ 10 ∷ 0 ∷ 3 ∷ 0 ∷ 2 ∷ 104 ∷ 105 ∷ 0 ∷ 6 ∷ 0 ∷ 0 ∷ []

exts-encode : ext_encode exts 12 ≡ ok exts_wire
unfolding ext_encode inner_len items pack_u16
exts-encode = refl

ext_decode-total_example :
    (ext_decode (take 9 exts_wire) ≡ fail)
    ⊎ ((es : List Extension) × (ext_decode (take 9 exts_wire) ≡ ok es) × IsList es)
ext_decode-total_example = ext_decode-total (take 9 exts_wire)

abbrev ack_key : List ℕ
ack_key = replicate 32 7

abbrev ack_iv : List ℕ
ack_iv = replicate 12 1

abbrev answer : BeaconAck
answer = record {
  client_id = 77;
  ack_sequence = 9;
  server_time_ms = 1000;
  status = 2;
  reserved = 0;
  suggested_interval_ms = 5000;
}

abbrev answer_wire : List ℕ
answer_wire =
    0
    ∷ 0
    ∷ 0
    ∷ 0
    ∷ 0
    ∷ 0
    ∷ 0
    ∷ 77
    ∷ 0
    ∷ 0
    ∷ 0
    ∷ 0
    ∷ 0
    ∷ 0
    ∷ 0
    ∷ 9
    ∷ 0
    ∷ 0
    ∷ 0
    ∷ 0
    ∷ 0
    ∷ 0
    ∷ 3
    ∷ 232
    ∷ 0
    ∷ 2
    ∷ 0
    ∷ 0
    ∷ 0
    ∷ 0
    ∷ 19
    ∷ 136
    ∷ replicate 16 7

answer_seals : ack_seal plain ack_key ack_iv 9 answer ≡ ok answer_wire
unfolding ack_seal ack_validate ack_pack pack_u64 pack_u32 pack_u16
answer_seals = refl

answer-FitsAck : FitsAck answer
answer-FitsAck = record {
  client_id = omega arith;
  ack_sequence = omega arith;
  server_time_ms = omega arith;
  status = omega arith;
  suggested_interval_ms = omega arith;
}

abbrev photo : FileMeta
photo = record {
  total_size = 5000;
  chunk_size = 2048;
  total_chunks = 3;
  mode = 420;
  mtime_s = 1700000000;
  sha256 = replicate 32 9;
  name = 97 ∷ 46 ∷ 98 ∷ [];
}

photo_valid : meta_validate photo ≡ true
unfolding meta_validate chars_ok dots_ahead expected_chunks
photo_valid = refl

abbrev photo_wire : List ℕ
photo_wire =
    0
    ∷ 0
    ∷ 0
    ∷ 0
    ∷ 0
    ∷ 0
    ∷ 19
    ∷ 136
    ∷ 0
    ∷ 0
    ∷ 8
    ∷ 0
    ∷ 0
    ∷ 0
    ∷ 0
    ∷ 3
    ∷ 0
    ∷ 0
    ∷ 1
    ∷ 164
    ∷ 101
    ∷ 83
    ∷ 241
    ∷ 0
    ∷ (replicate 32 9 ++ (0 ∷ 3 ∷ (replicate 24 0 ++ (97 ∷ 46 ∷ 98 ∷ []))))

photo_packs : meta_pack photo 85 ≡ ok photo_wire
unfolding meta_pack meta_validate chars_ok dots_ahead expected_chunks bytes_at pack_u64 pack_u32
    pack_u16
photo_packs = refl
