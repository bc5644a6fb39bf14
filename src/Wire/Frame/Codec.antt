-- ===== src/Wire/Frame/Codec.antt =====
-- Packing and unpacking of stream frames.
use securelink.Common.{
  ℕ, ◌+◌, ◌≤◌, ◌≡◌, ◌≢◌, arith, List, ◌∷◌, ◌++◌, length, ok, fault, length-append,
}
use securelink.Bytes.{u8, byte_at, pack_u16, pack_u32, unpack_u16, unpack_u32}
use securelink.Bytes.Fields.{join_u16-split, join_u32-split}
use securelink.Bytes.Reads.{
  bytes_at-middle, byte_at-ok, bytes_at-ok, unpack_u16-ok, unpack_u32-ok, u16_at,
}
use securelink.Wire.Frame.{StreamFrame, IsValid, pack, unpack, header_len}

-- Whatever the input holds, `sl_stream_frame_unpack` reads no byte outside it.
pub frame_unpack-ne-fault : (input : List ℕ) → unpack input ≢ fault
unfolding unpack
frame_unpack-ne-fault input = ground (
  arith,
  unpack_u16-ok input 2,
  byte_at-ok input 0,
  byte_at-ok input 1,
  unpack_u32-ok input 4,
  unpack_u16-ok input 8,
  bytes_at-ok input header_len (u16_at input 8),
)

abbrev packed_header : StreamFrame → List ℕ
packed_header f =
    u8 f.kind ∷ f.flags ∷ (pack_u16 0 ++ (pack_u32 f.stream_id ++ pack_u16 (length f.payload)))

unpack-packed :
    (f : StreamFrame) (rest : List ℕ)
    → IsValid f
    → length f.payload ≤ 16000
    → unpack (packed_header f ++ (f.payload ++ rest)) ≡ ok (f, 10 + length f.payload)
unfolding unpack pack_u16 pack_u32 unpack_u16 unpack_u32 byte_at
unpack-packed f rest v h = ground (
  arith,
  join_u16-split 0,
  join_u16-split (length f.payload),
  join_u32-split f.stream_id,
  bytes_at-middle (packed_header f) f.payload rest,
  length-append f.payload rest,
)

-- `sl_stream_frame_unpack` reads back the frame that was packed, of a known type and with fields
-- that fit their C types, and takes just the packed bytes, whatever comes behind them.
pub frame_unpack-pack :
    (f : StreamFrame) (out_cap : ℕ) (wire rest : List ℕ)
    → IsValid f
    → pack f out_cap ≡ ok wire
    → unpack (wire ++ rest) ≡ ok (f, length wire)
unfolding pack pack_u16 pack_u32
frame_unpack-pack f out_cap wire rest v e = ground (arith, unpack-packed f rest v)
