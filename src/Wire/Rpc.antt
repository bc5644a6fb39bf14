-- ===== src/Wire/Rpc.antt =====
-- src/sl_rpc_msg.c: requests and responses of a remote call.
pub mod Codec
use securelink.Common.{
  ℕ, ◌+◌, ◌*◌, not, ◌||◌, List, ◌∷◌, ◌++◌, ltb, ◌==◌, length, Outcome, ok, ◌>>=◌, ◌>>◌, reject_if,
}
use securelink.Bytes.{u8, byte_at, bytes_at, pack_u16, pack_u32, unpack_u16, unpack_u32}

abbrev pub method_max : ℕ
method_max = 128

abbrev pub body_max : ℕ
body_max = 16 * 1024

abbrev pub request_tag : ℕ
request_tag = 1

abbrev pub response_tag : ℕ
response_tag = 2

pub record Request : Type 0 where
  pub request_id : ℕ
  pub method : List ℕ
  pub body : List ℕ

pub record Response : Type 0 where
  pub request_id : ℕ
  pub status : ℕ
  pub body : List ℕ

-- `sl_rpc_request_pack`: the bytes written at `out`.
unfoldable pub request_pack : Request → ℕ → Outcome (List ℕ)
request_pack r out_cap = do
  let method_len = length r.method
  let body_len = length r.body
  reject_if (method_len == 0 || ltb method_max method_len)
  reject_if (ltb body_max body_len)
  let need = 1 + 1 + 4 + 2 + method_len + 4 + body_len
  reject_if (ltb out_cap need)
  ok (
      request_tag
      ∷ 0
      ∷ (pack_u32 r.request_id
          ++ (pack_u16 method_len ++ (r.method ++ (pack_u32 body_len ++ r.body)))))

-- `sl_rpc_request_unpack`
unfoldable pub request_unpack : List ℕ → Outcome Request
request_unpack input = do
  reject_if (ltb (length input) 12)
  tag ← byte_at input 0
  reject_if (not (tag == request_tag))
  id ← unpack_u32 input 2
  method_len ← unpack_u16 input 6
  reject_if (method_len == 0 || ltb method_max method_len)
  reject_if (ltb (length input) (8 + method_len + 4))
  method ← bytes_at input 8 method_len
  body_len ← unpack_u32 input (8 + method_len)
  reject_if (ltb body_max body_len)
  reject_if (ltb (length input) (8 + method_len + 4 + body_len))
  body ← bytes_at input (8 + method_len + 4) body_len
  ok (record { request_id = id; method = method; body = body })

-- `sl_rpc_response_pack`
unfoldable pub response_pack : Response → ℕ → Outcome (List ℕ)
response_pack r out_cap = do
  let body_len = length r.body
  reject_if (ltb body_max body_len)
  let need = 1 + 1 + 4 + 2 + 4 + body_len
  reject_if (ltb out_cap need)
  ok (
      response_tag
      ∷ u8 r.status
      ∷ (pack_u32 r.request_id ++ (pack_u16 0 ++ (pack_u32 body_len ++ r.body))))

-- `sl_rpc_response_unpack`
unfoldable pub response_unpack : List ℕ → Outcome Response
response_unpack input = do
  reject_if (ltb (length input) 12)
  tag ← byte_at input 0
  reject_if (not (tag == response_tag))
  status ← byte_at input 1
  id ← unpack_u32 input 2
  reserved ← unpack_u16 input 6
  reject_if (not (reserved == 0))
  body_len ← unpack_u32 input 8
  reject_if (ltb body_max body_len)
  reject_if (ltb (length input) (12 + body_len))
  body ← bytes_at input 12 body_len
  ok (record { request_id = id; status = status; body = body })
