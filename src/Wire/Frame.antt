-- ===== src/Wire/Frame.antt =====
-- src/sl_stream_frame.c: one frame of a multiplexed stream.
pub mod Codec
use securelink.Common.{
  ℕ, ◌+◌, ◌≤◌, ◌<◌, ◌^◌, List, ◌∷◌, ◌++◌, length, Outcome, ok, ◌>>=◌, ◌>>◌, reject_if, ltb, ◌==◌,
  not, ◌||◌,
}
use securelink.Bytes.{u8, IsByte, byte_at, bytes_at, pack_u16, pack_u32, unpack_u16, unpack_u32}

abbrev pub header_len : ℕ
header_len = 10

abbrev pub max_payload : ℕ
max_payload = 16000

-- `SL_STREAM_FRAME_PONG`, the last of the frame types
abbrev pub pong : ℕ
pong = 5

pub record StreamFrame : Type 0 where
  pub kind : ℕ
  pub flags : ℕ
  pub stream_id : ℕ
  pub payload : List ℕ

-- The bytes that `sl_stream_frame_pack` writes at `out`; it returns their number.
unfoldable pub pack : StreamFrame → ℕ → Outcome (List ℕ)
pack f out_cap = do
  reject_if (ltb max_payload (length f.payload))
  let need = header_len + length f.payload
  reject_if (ltb out_cap need)
  ok (
      u8 f.kind
      ∷ f.flags
      ∷ (pack_u16 0 ++ (pack_u32 f.stream_id ++ (pack_u16 (length f.payload) ++ f.payload))))

-- `sl_stream_frame_unpack`: the frame and the number of bytes that it takes.
unfoldable pub unpack : List ℕ → Outcome (StreamFrame × ℕ)
unpack input = do
  reject_if (ltb (length input) header_len)
  rsv ← unpack_u16 input 2
  reject_if (not (rsv == 0))
  kind ← byte_at input 0
  flags ← byte_at input 1
  sid ← unpack_u32 input 4
  plen ← unpack_u16 input 8
  reject_if (ltb max_payload plen)
  reject_if (ltb (length input) (header_len + plen))
  reject_if (kind == 0 || ltb pong kind)
  payload ← bytes_at input header_len plen
  ok (record { kind = kind; flags = flags; stream_id = sid; payload = payload }, header_len + plen)

-- A frame whose fields fit the C types, of a type that a peer accepts.
pub record IsValid (f : StreamFrame) : Type 0 where
  pub known : 1 ≤ f.kind
  pub last : f.kind ≤ pong
  pub flags : IsByte f.flags
  pub stream_id : f.stream_id < 2 ^ 32
