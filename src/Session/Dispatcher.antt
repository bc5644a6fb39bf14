-- ===== src/Session/Dispatcher.antt =====
-- src/rpc_dispatcher.cpp: the methods of a server, and the answer to a request.
pub mod Answers
pub mod Counts
use securelink.Common.{
  ℕ, ◌+◌, Option, none, some, List, [], ◌∷◌, ◌==◌, if◌then◌else◌, length, Outcome, ok, fail, fault,
}
use securelink.Common.Assoc.{lookup, insert, erase, bytes_eq}
use securelink.Bytes.{u64}
use securelink.Wire.Rpc.{Request, Response, request_unpack, response_pack}

abbrev pub status_ok : ℕ
status_ok = 0

abbrev pub status_bad_request : ℕ
status_bad_request = 1

abbrev pub status_not_found : ℕ
status_not_found = 2

abbrev pub status_internal : ℕ
status_internal = 4

pub record RpcResponse : Type 0 where
  pub status : ℕ
  pub body : List ℕ

-- `RpcHandler`: `none` where the handler throws.
abbrev pub RpcHandler : Type 0
RpcHandler = List ℕ → Option RpcResponse

pub record Stats : Type 0 where
  pub requests_total : ℕ
  pub responses_ok : ℕ
  pub responses_error : ℕ
  pub method_not_found : ℕ
  pub handler_threw : ℕ

pub record RpcDispatcher : Type 0 where
  pub methods : List (List ℕ × RpcHandler)
  pub stats : Stats

abbrev pub new : RpcDispatcher
new = record {
  methods = [];
  stats = record {
    requests_total = 0;
    responses_ok = 0;
    responses_error = 0;
    method_not_found = 0;
    handler_threw = 0;
  };
}

unfoldable pub register_method : RpcDispatcher → List ℕ → RpcHandler → RpcDispatcher
register_method d method h = record d { methods = insert method h d.methods }

unfoldable pub unregister_method : RpcDispatcher → List ℕ → RpcDispatcher
unregister_method d method = record d { methods = erase method d.methods }

-- `out.clear()` where the packing fails
unfoldable pub make_response : ℕ → RpcResponse → List ℕ
make_response req_id r =
    elim (response_pack (record { request_id = req_id; status = r.status; body = r.body })
      (12 + length r.body)) [ ok out ↦ out | fail ↦ [] | fault ↦ [] ]

-- `methods_.find(req.method)` reads a C string: the bytes in front of the first zero.
unfoldable pub c_string : List ℕ → List ℕ
c_string [] = []
c_string (b ∷ bs) = if b == 0 then [] else b ∷ c_string bs

count_total : Stats → Stats
count_total s = record s { requests_total = u64 (s.requests_total + 1) }

count_error : Stats → Stats
count_error s = record s { responses_error = u64 (s.responses_error + 1) }

count_missing : Stats → Stats
count_missing s = record s { method_not_found = u64 (s.method_not_found + 1) }

count_threw : Stats → Stats
count_threw s = record s { handler_threw = u64 (s.handler_threw + 1) }

-- The last count of `handle`.
count_status : ℕ → Stats → Stats
unfolding count_error
count_status st s =
    if st == status_ok then record s { responses_ok = u64 (s.responses_ok + 1) } else count_error s

-- The `try` and its handlers: the counters, and the result.
called : Stats → Option RpcResponse → Stats × RpcResponse
unfolding count_error count_threw
called s none = (count_error (count_threw s), record { status = status_internal; body = [] })
called s (some r) = (s, r)

answer : RpcDispatcher → Request → Option RpcHandler → RpcDispatcher × List ℕ
unfolding count_total count_error count_missing called count_status make_response
answer d req none = (
  record d { stats = count_error (count_missing (count_total d.stats)) },
  make_response req.request_id (record { status = status_not_found; body = [] }),
)
answer d req (some handler) =
    let (s, result) = called (count_total d.stats) (handler req.body) in
    (record d { stats = count_status result.status s }, make_response req.request_id result)

refuse : RpcDispatcher → RpcDispatcher × List ℕ
unfolding count_total count_error make_response
refuse d = (
  record d { stats = count_error (count_total d.stats) },
  make_response 0 (record { status = status_bad_request; body = [] }),
)

unfoldable pub handle : RpcDispatcher → List ℕ → RpcDispatcher × List ℕ
unfolding answer refuse c_string
handle d request_bytes = elim (request_unpack request_bytes) [
  | ok req ↦ answer d req (lookup (c_string req.method) d.methods)
  | fail ↦ refuse d
  | fault ↦ refuse d
]
