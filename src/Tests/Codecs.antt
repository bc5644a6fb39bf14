-- ===== src/Tests/Codecs.antt =====
-- Messages packed, unpacked and refused, and names split.
use securelink.Common.{ℕ, ◌≡◌, refl, ◌≢◌, List, [], ◌∷◌, take, ok, fault}
use securelink.Bytes.{pack_u16, pack_u32}
use securelink.Wire.Frame
use securelink.Wire.Frame.{StreamFrame}
use securelink.Wire.Pubsub
use securelink.Wire.Readers.{readers-ne-fault}
use securelink.Wire.FileMeta.{meta_unpack}
use securelink.Wire.FileChunk.{chunk_unpack}
use securelink.Wire.Rpc.{Request, request_pack, request_unpack, response_unpack}
use securelink.Wire.RpcMethod.{is_alnum, segments_ok, method_is_valid, last_dot, method_split}

abbrev ping : StreamFrame
ping = record { kind = 4; flags = 1; stream_id = 258; payload = 9 ∷ 8 ∷ [] }

abbrev ping_wire : List ℕ
ping_wire = 4 ∷ 1 ∷ 0 ∷ 0 ∷ 0 ∷ 0 ∷ 1 ∷ 2 ∷ 0 ∷ 2 ∷ 9 ∷ 8 ∷ []

ping_packs : Frame.pack ping 12 ≡ ok ping_wire
unfolding Frame.pack pack_u16 pack_u32
ping_packs = refl

abbrev call : Request
call = record { request_id = 7; method = 97 ∷ 98 ∷ []; body = 3 ∷ [] }

abbrev call_wire : List ℕ
call_wire = 1 ∷ 0 ∷ 0 ∷ 0 ∷ 0 ∷ 7 ∷ 0 ∷ 2 ∷ 97 ∷ 98 ∷ 0 ∷ 0 ∷ 0 ∷ 1 ∷ 3 ∷ []

call_packs : request_pack call 15 ≡ ok call_wire
unfolding request_pack pack_u16 pack_u32
call_packs = refl

readers-ne-fault_example :
    (Frame.unpack (take 11 ping_wire) ≢ fault)
    × (Pubsub.unpack (take 11 ping_wire) ≢ fault)
    × (request_unpack (take 11 ping_wire) ≢ fault)
    × (response_unpack (take 11 ping_wire) ≢ fault)
    × (meta_unpack (take 11 ping_wire) ≢ fault)
    × (chunk_unpack (take 11 ping_wire) ≢ fault)
readers-ne-fault_example = readers-ne-fault (take 11 ping_wire)

-- a.b.c
abbrev nested : List ℕ
nested = 97 ∷ 46 ∷ 98 ∷ 46 ∷ 99 ∷ []

abbrev nested_ns : List ℕ
nested_ns = 97 ∷ 46 ∷ 98 ∷ []

abbrev nested_leaf : List ℕ
nested_leaf = 99 ∷ []

nested-split : method_split nested ≡ ok (nested_ns, nested_leaf)
unfolding method_split method_is_valid segments_ok is_alnum last_dot
nested-split = refl
