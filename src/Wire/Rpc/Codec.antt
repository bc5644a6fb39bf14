-- ===== src/Wire/Rpc/Codec.antt =====
-- Packing and unpacking of calls.
use securelink.Common.{
  ℕ, ◌+◌, ◌^◌, ◌≤◌, ◌<◌, ◌≡◌, refl, ◌≢◌, List, [], ◌∷◌, ◌++◌, append_assoc, arith, length,
  length-append, ok, fault,
}
use securelink.Bytes.{u8, byte_at, pack_u16, pack_u32, unpack_u16, unpack_u32}
use securelink.Bytes.Reads.{
  u16_at, u32_at, byte_at-ok, unpack_u16-ok, unpack_u32-ok, bytes_at-ok, bytes_at-middle,
  bytes_at-eq, unpack_u16-eq, unpack_u32-eq,
}
use securelink.Bytes.Fields.{join_u16-split, join_u32-split}
use securelink.Wire.Rpc.{
  method_max, body_max, request_tag, response_tag, Request, Response, request_pack, request_unpack,
  response_pack, response_unpack,
}

-- No input makes the two readers of the RPC messages read outside it.
pub rpc_unpack-ne-fault :
    (input : List ℕ) → (request_unpack input ≢ fault) × (response_unpack input ≢ fault)
unfolding request_unpack response_unpack
rpc_unpack-ne-fault input = (
  ground (
    arith,
    byte_at-ok input 0,
    unpack_u32-ok input 2,
    unpack_u16-ok input 6,
    bytes_at-ok input 8 (u16_at input 6),
    unpack_u32-ok input (8 + u16_at input 6),
    bytes_at-ok input (8 + u16_at input 6 + 4) (u32_at input (8 + u16_at input 6)),
  ),
  ground (
    arith,
    byte_at-ok input 0,
    byte_at-ok input 1,
    unpack_u32-ok input 2,
    unpack_u16-ok input 6,
    unpack_u32-ok input 8,
    bytes_at-ok input 12 (u32_at input 8),
  ),
)

abbrev request_header : Request → List ℕ
request_header r = request_tag ∷ 0 ∷ (pack_u32 r.request_id ++ pack_u16 (length r.method))

unpack-packed_request :
    (r : Request) (rest : List ℕ)
    → r.request_id < 2 ^ 32
    → length r.method ≢ 0
    → length r.method ≤ method_max
    → length r.body ≤ body_max
    → request_unpack
        (request_header r ++ (r.method ++ (pack_u32 (length r.body) ++ (r.body ++ rest))))
      ≡ ok r
unfolding request_unpack byte_at pack_u16 pack_u32
unpack-packed_request r rest hi h0 hm hb =
    let mlen = length r.method in
    let blen = length r.body in
    let back = r.method ++ (pack_u32 blen ++ (r.body ++ rest)) in
    let front = request_header r in
    let wire = front ++ back in
    ground (
      arith,
      unpack_u32-eq wire (request_tag ∷ 0 ∷ []) (pack_u16 mlen ++ back) r.request_id 2 hi refl refl,
      unpack_u16-eq wire (request_tag ∷ 0 ∷ pack_u32 r.request_id) back mlen 6 (omega arith) refl
          refl,
      bytes_at-eq wire front r.method (pack_u32 blen ++ (r.body ++ rest)) 8 mlen refl refl refl,
      unpack_u32-eq wire (front ++ r.method) (r.body ++ rest) blen (8 + mlen) (omega arith) refl
          (omega arith),
      bytes_at-eq wire (front ++ (r.method ++ pack_u32 blen)) r.body rest (8 + mlen + 4) blen
          (rw (append_assoc r.method (pack_u32 blen) (r.body ++ rest)))
          (omega (arith, length-append r.method (pack_u32 blen))) refl,
      length-append r.method (pack_u32 blen ++ (r.body ++ rest)),
      length-append r.body rest,
    )

-- `sl_rpc_request_unpack` reads back the request that was packed, with an identifier of 32 bits,
-- whatever comes behind it.
pub request_unpack-pack :
    (r : Request) (out_cap : ℕ) (wire rest : List ℕ)
    → r.request_id < 2 ^ 32
    → request_pack r out_cap ≡ ok wire
    → request_unpack (wire ++ rest) ≡ ok r
unfolding request_pack pack_u16 pack_u32
request_unpack-pack r out_cap wire rest h e = ground (
  arith,
  append_assoc r.method (pack_u32 (length r.body) ++ r.body) rest,
  unpack-packed_request r rest h,
)

abbrev response_header : Response → List ℕ
response_header r =
    response_tag ∷ u8 r.status ∷ (pack_u32 r.request_id ++ (pack_u16 0 ++ pack_u32 (length r.body)))

unpack-packed_response :
    (r : Response) (rest : List ℕ)
    → r.request_id < 2 ^ 32
    → r.status < 2 ^ 8
    → length r.body ≤ body_max
    → response_unpack (response_header r ++ (r.body ++ rest)) ≡ ok r
unfolding response_unpack byte_at pack_u16 pack_u32 unpack_u16 unpack_u32
unpack-packed_response r rest hi hs hb = ground (
  arith,
  join_u16-split 0,
  join_u32-split r.request_id,
  join_u32-split (length r.body),
  bytes_at-middle (response_header r) r.body rest,
  length-append r.body rest,
)

-- `sl_rpc_response_unpack` reads back the response that was packed, of a status that fits a byte.
pub response_unpack-pack :
    (r : Response) (out_cap : ℕ) (wire rest : List ℕ)
    → r.request_id < 2 ^ 32
    → r.status < 2 ^ 8
    → response_pack r out_cap ≡ ok wire
    → response_unpack (wire ++ rest) ≡ ok r
unfolding response_pack pack_u16 pack_u32
response_unpack-pack r out_cap wire rest hi hs e =
    ground (arith, unpack-packed_response r rest hi hs)
