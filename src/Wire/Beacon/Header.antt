-- ===== src/Wire/Beacon/Header.antt =====
-- The header of a beacon, packed and unpacked.
use securelink.Common.{ℕ, ◌^◌, ◌≤◌, ◌<◌, ◌≡◌, refl, List, [], ◌++◌, arith, length, replicate, ok}
use securelink.Bytes.{pack_u16, pack_u32, pack_u64}
use securelink.Bytes.Reads.{
  u16_at, u32_at, u64_at, unpack_u16-ok, unpack_u32-ok, unpack_u64-ok, unpack_u16-eq, unpack_u32-eq,
  unpack_u64-eq,
}
use securelink.Wire.Beacon.{header_len, max_payload, Beacon, pack_header, unpack_header}

-- The header fields fit their C types.
pub record Fits (b : Beacon) : Type 0 where
  pub client_id : b.client_id < 2 ^ 64
  pub sequence : b.sequence < 2 ^ 64
  pub timestamp_ms : b.timestamp_ms < 2 ^ 64
  pub interval_ms : b.interval_ms < 2 ^ 32
  pub payload_len : b.payload_len < 2 ^ 16
  pub flags : b.flags < 2 ^ 16

pub length-pack_header : (b : Beacon) → length (pack_header b) ≡ header_len
unfolding pack_header pack_u64 pack_u32 pack_u16
length-pack_header b = refl

-- `sl_beacon_unpack_header` reads back the header that was packed, over a payload of zeros.
pub unpack_header-pack_header :
    (b : Beacon) (rest : List ℕ)
    → Fits b
    → unpack_header (pack_header b ++ rest) ≡ ok (record b { payload = replicate max_payload 0 })
unfolding unpack_header pack_header pack_u64 pack_u32 pack_u16
unpack_header-pack_header b rest f =
    let wire = pack_header b ++ rest in
    let ends = pack_u16 b.payload_len ++ (pack_u16 b.flags ++ rest) in
    let tail = pack_u32 b.interval_ms ++ ends in
    let id = pack_u64 b.client_id in
    let sq = pack_u64 b.sequence in
    let ts = pack_u64 b.timestamp_ms in
    let iv = pack_u32 b.interval_ms in
    let pl = pack_u16 b.payload_len in
    rw (
      unpack_u64-eq wire [] (sq ++ (ts ++ tail)) b.client_id 0 f.client_id refl refl,
      unpack_u64-eq wire id (ts ++ tail) b.sequence 8 f.sequence refl refl,
      unpack_u64-eq wire (id ++ sq) tail b.timestamp_ms 16 f.timestamp_ms refl refl,
      unpack_u32-eq wire (id ++ (sq ++ ts)) ends b.interval_ms 24 f.interval_ms refl refl,
      unpack_u16-eq wire (id ++ (sq ++ (ts ++ iv))) (pack_u16 b.flags ++ rest) b.payload_len 28
          f.payload_len refl refl,
      unpack_u16-eq wire (id ++ (sq ++ (ts ++ (iv ++ pl)))) rest b.flags 30 f.flags refl refl,
    )

-- What thirty-two bytes say, whatever they are.
unfoldable pub header_of : List ℕ → Beacon
header_of input = record {
  client_id = u64_at input 0;
  sequence = u64_at input 8;
  timestamp_ms = u64_at input 16;
  interval_ms = u32_at input 24;
  payload_len = u16_at input 28;
  flags = u16_at input 30;
  payload = replicate max_payload 0;
}

pub payload-header_of : (input : List ℕ) → (header_of input).payload ≡ replicate max_payload 0
unfolding header_of
payload-header_of input = refl

pub unpack_header-ok :
    (input : List ℕ) → header_len ≤ length input → unpack_header input ≡ ok (header_of input)
unfolding unpack_header header_of
unpack_header-ok input h = rw (
  unpack_u64-ok input 0 (omega arith),
  unpack_u64-ok input 8 (omega arith),
  unpack_u64-ok input 16 (omega arith),
  unpack_u32-ok input 24 (omega arith),
  unpack_u16-ok input 28 (omega arith),
  unpack_u16-ok input 30 (omega arith),
)
