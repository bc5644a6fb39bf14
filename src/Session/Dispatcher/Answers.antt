-- ===== src/Session/Dispatcher/Answers.antt =====
-- What comes back to a request.
use securelink.Common.{
  ℕ, ◌+◌, ◌^◌, ◌≤◌, ◌<◌, ◌≡◌, refl, Option, none, some, List, [], append-nil, arith, length, ok,
  fail, fault,
}
use securelink.Common.Assoc.{lookup, bytes_eq}
use securelink.Bytes.{u64}
use securelink.Wire.Rpc.{body_max, Request, Response, request_pack, response_pack, response_unpack}
use securelink.Wire.Rpc.Codec.{request_unpack-pack, response_unpack-pack}
use securelink.Session.Dispatcher.{
  status_ok, status_not_found, status_internal, RpcResponse, RpcHandler, RpcDispatcher,
  make_response, c_string, answer, handle,
}

-- What the method that a request names has to say to its body.
unfoldable pub outcome : Option RpcHandler → List ℕ → RpcResponse
outcome none body = record { status = status_not_found; body = [] }
outcome (some handler) body = elim (handler body) [
  | none ↦ record { status = status_internal; body = [] }
  | some r ↦ r
]

unfoldable pub reply : RpcDispatcher → Request → Response
unfolding outcome
reply d r =
    let o = outcome (lookup (c_string r.method) d.methods) r.body in
    record { request_id = r.request_id; status = o.status; body = o.body }

-- A response that fits is packed, and the peer reads it back.
packed :
    (r : Response)
    → length r.body ≤ body_max
    → (wire : List ℕ) × (response_pack r (12 + length r.body) ≡ ok wire)
unfolding response_pack
packed r h =
    elim (response_pack r (12 + length r.body))
        as (λ o.
          response_pack r (12 + length r.body) ≡ o
          → (wire : List ℕ) × (response_pack r (12 + length r.body) ≡ ok wire)) [
            | ok w ↦ λ e. (w, e)
            | fail ↦ λ e. absurd (ground arith)
            | fault ↦ λ e. absurd (ground arith)
          ]
      refl

make_response-unpack :
    (id : ℕ) (r : RpcResponse)
    → id < 2 ^ 32
    → r.status < 2 ^ 8
    → length r.body ≤ body_max
    → response_unpack (make_response id r)
      ≡ ok (record { request_id = id; status = r.status; body = r.body })
unfolding make_response
make_response-unpack id r hi hs hb =
    let x : Response = record { request_id = id; status = r.status; body = r.body } in
    let (wire, e) = packed x hb in
    let back = response_unpack-pack x (12 + length r.body) wire [] hi hs e in
    rw (e, make_response) (rw append-nil at back)

answered :
    (d : RpcDispatcher) (r : Request) (h : Option RpcHandler)
    → r.request_id < 2 ^ 32
    → (outcome h r.body).status < 2 ^ 8
    → length (outcome h r.body).body ≤ body_max
    → response_unpack (answer d r h).1
      ≡ ok (record {
        request_id = r.request_id;
        status = (outcome h r.body).status;
        body = (outcome h r.body).body;
      })
unfolding answer outcome
answered d r none hi hs hb =
    make_response-unpack r.request_id (record { status = status_not_found; body = [] }) hi hs hb
answered d r (some handler) hi hs hb = ground (
  arith,
  make_response-unpack r.request_id (record { status = status_internal; body = [] }) hi,
  make_response-unpack r.request_id (outcome (some handler) r.body) hi,
)

-- A call from end to end, under an id of 32 bits: the bytes that `handle` returns for a packed
-- request are a response under the request's id with what the method answered, or with NOT_FOUND
-- or INTERNAL and no body where there is no such method or it throws. The answer has to fit a
-- response: a status of one byte, and a body of at most SL_RPC_BODY_MAX bytes.
pub handle-call :
    (d : RpcDispatcher) (r : Request) (out_cap : ℕ) (wire : List ℕ)
    → r.request_id < 2 ^ 32
    → request_pack r out_cap ≡ ok wire
    → (reply d r).status < 2 ^ 8
    → length (reply d r).body ≤ body_max
    → response_unpack (handle d wire).1 ≡ ok (reply d r)
unfolding handle reply
handle-call d r out_cap wire hi e hs hb =
    let decoded = rw append-nil at (request_unpack-pack r out_cap wire [] hi e) in
    rw (decoded, handle) (answered d r (lookup (c_string r.method) d.methods) hi hs hb)

-- A body that does not fit a response.
make_response-big : (id : ℕ) (r : RpcResponse) → body_max < length r.body → make_response id r ≡ []
unfolding make_response response_pack
make_response-big id r h = ground arith

-- An answer that does not fit a response leaves the caller with no bytes at all, though it is
-- counted by its status like any other: as a success if the method said so.
pub handle-oversized :
    (d : RpcDispatcher) (r : Request) (out_cap : ℕ) (wire : List ℕ) (h : RpcHandler)
    (a : RpcResponse)
    → r.request_id < 2 ^ 32
    → request_pack r out_cap ≡ ok wire
    → lookup (c_string r.method) d.methods ≡ some h
    → h r.body ≡ some a
    → body_max < length a.body
    → a.status ≡ status_ok
    → ((handle d wire).1 ≡ [])
      × ((handle d wire).0.stats.responses_ok ≡ u64 (d.stats.responses_ok + 1))
unfolding handle
handle-oversized d r out_cap wire h a hi e found says big fine =
    let decoded = rw append-nil at (request_unpack-pack r out_cap wire [] hi e) in
    ground (arith, decoded, make_response-big r.request_id a)
