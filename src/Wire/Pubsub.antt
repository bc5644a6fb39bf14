-- ===== src/Wire/Pubsub.antt =====
-- src/sl_pubsub_msg.c: the messages between a publisher, a subscriber and the broker.
pub mod Codec
use securelink.Common.{
  ℕ, ◌+◌, ◌*◌, ◌≤◌, ◌||◌, List, ◌∷◌, ◌++◌, ltb, ◌==◌, length, Outcome, ok, ◌>>=◌, ◌>>◌, reject_if,
}
use securelink.Bytes.{u8, IsByte, byte_at, bytes_at, pack_u16, pack_u32, unpack_u16, unpack_u32}

abbrev pub header_len : ℕ
header_len = 8

abbrev pub max_topic : ℕ
max_topic = 256

abbrev pub max_payload : ℕ
max_payload = 16 * 1024

-- `SL_PUBSUB_SUBACK`, the last of the message types
abbrev pub suback : ℕ
suback = 5

pub record PubsubMsg : Type 0 where
  pub kind : ℕ
  pub flags : ℕ
  pub topic : List ℕ
  pub payload : List ℕ

-- `sl_pubsub_pack`: the bytes written at `out`.
unfoldable pub pack : PubsubMsg → ℕ → Outcome (List ℕ)
pack m out_cap = do
  let topic_len = length m.topic
  let payload_len = length m.payload
  reject_if (ltb max_topic topic_len)
  reject_if (ltb max_payload payload_len)
  let need = header_len + topic_len + payload_len
  reject_if (ltb out_cap need)
  ok (
      u8 m.kind
      ∷ m.flags
      ∷ (pack_u16 topic_len ++ (pack_u32 payload_len ++ (m.topic ++ m.payload))))

-- `sl_pubsub_unpack`
unfoldable pub unpack : List ℕ → Outcome PubsubMsg
unpack input = do
  reject_if (ltb (length input) header_len)
  kind ← byte_at input 0
  flags ← byte_at input 1
  tlen ← unpack_u16 input 2
  plen ← unpack_u32 input 4
  reject_if (kind == 0 || ltb suback kind)
  reject_if (ltb max_topic tlen || ltb max_payload plen)
  reject_if (ltb (length input) (header_len + tlen + plen))
  topic ← bytes_at input header_len tlen
  payload ← bytes_at input (header_len + tlen) plen
  ok (record { kind = kind; flags = flags; topic = topic; payload = payload })

-- A message whose fields fit the C types, of a type that a peer accepts.
pub record IsValid (m : PubsubMsg) : Type 0 where
  pub known : 1 ≤ m.kind
  pub last : m.kind ≤ suback
  pub flags : IsByte m.flags
