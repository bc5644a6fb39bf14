-- ===== src/Wire/Pubsub/Codec.antt =====
-- Packing and unpacking of pub/sub messages.
use securelink.Common.{
  ℕ, ◌+◌, ◌≤◌, ◌≡◌, refl, ◌≢◌, List, ◌∷◌, ◌++◌, append_assoc, arith, length, length-append, ok,
  fault,
}
use securelink.Bytes.{u8, byte_at, pack_u16, pack_u32, unpack_u16, unpack_u32}
use securelink.Bytes.Reads.{
  u16_at, u32_at, byte_at-ok, unpack_u16-ok, unpack_u32-ok, bytes_at-ok, bytes_at-middle,
  bytes_at-eq,
}
use securelink.Bytes.Fields.{join_u16-split, join_u32-split}
use securelink.Wire.Pubsub.{header_len, max_topic, max_payload, PubsubMsg, pack, unpack, IsValid}

-- Whatever the input holds, `sl_pubsub_unpack` reads no byte outside it.
pub pubsub_unpack-ne-fault : (input : List ℕ) → unpack input ≢ fault
unfolding unpack
pubsub_unpack-ne-fault input = ground (
  arith,
  byte_at-ok input 0,
  byte_at-ok input 1,
  unpack_u16-ok input 2,
  unpack_u32-ok input 4,
  bytes_at-ok input header_len (u16_at input 2),
  bytes_at-ok input (header_len + u16_at input 2) (u32_at input 4),
)

abbrev packed_header : PubsubMsg → List ℕ
packed_header m = u8 m.kind ∷ m.flags ∷ (pack_u16 (length m.topic) ++ pack_u32 (length m.payload))

unpack-packed :
    (m : PubsubMsg) (rest : List ℕ)
    → IsValid m
    → length m.topic ≤ max_topic
    → length m.payload ≤ max_payload
    → unpack (packed_header m ++ (m.topic ++ (m.payload ++ rest))) ≡ ok m
unfolding unpack byte_at pack_u16 pack_u32 unpack_u16 unpack_u32
unpack-packed m rest v ht hp =
    let wire = packed_header m ++ (m.topic ++ (m.payload ++ rest)) in
    ground (
      arith,
      join_u16-split (length m.topic),
      join_u32-split (length m.payload),
      bytes_at-middle (packed_header m) m.topic (m.payload ++ rest),
      bytes_at-eq wire (packed_header m ++ m.topic) m.payload rest (8 + length m.topic)
          (length m.payload) refl (omega arith) refl,
      length-append m.topic (m.payload ++ rest),
      length-append m.payload rest,
    )

-- `sl_pubsub_unpack` reads back the message that was packed.
pub pubsub_unpack-pack :
    (m : PubsubMsg) (out_cap : ℕ) (wire rest : List ℕ)
    → IsValid m
    → pack m out_cap ≡ ok wire
    → unpack (wire ++ rest) ≡ ok m
unfolding pack pack_u16 pack_u32
pubsub_unpack-pack m out_cap wire rest v e =
    ground (arith, append_assoc m.topic m.payload rest, unpack-packed m rest v)
