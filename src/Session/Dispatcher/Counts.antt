-- ===== src/Session/Dispatcher/Counts.antt =====
-- How the answers to requests are counted.
use securelink.Common.{ℕ, ◌+◌, ◌≡◌, ap, none, some, List, [], ◌∷◌, arith, length, ok, fail, fault}
use securelink.Common.Assoc.{lookup, bytes_eq}
use securelink.Bytes.{u64}
use securelink.Wire.Rpc.{request_unpack}
use securelink.Session.Dispatcher.{RpcHandler, Stats, RpcDispatcher, new, c_string, handle}

-- The requests of a client, one after another.
unfoldable pub handle_all : RpcDispatcher → List (List ℕ) → RpcDispatcher
handle_all d [] = d
handle_all d (x ∷ xs) = handle_all (handle d x).0 xs

-- 1 where the bytes are a request for a method that throws on its body.
unfoldable pub throws : List (List ℕ × RpcHandler) → List ℕ → ℕ
throws methods input = elim (request_unpack input) [
  | ok r ↦ elim (lookup (c_string r.method) methods) [
    | none ↦ 0
    | some handler ↦ elim (handler r.body) [ none ↦ 1 | some a ↦ 0 ]
  ]
  | fail ↦ 0
  | fault ↦ 0
]

unfoldable pub all_throws : List (List ℕ × RpcHandler) → List (List ℕ) → ℕ
all_throws methods [] = 0
all_throws methods (x ∷ xs) = throws methods x + all_throws methods xs

handle-methods : (d : RpcDispatcher) (x : List ℕ) → (handle d x).0.methods ≡ d.methods
unfolding handle
handle-methods d x = ground arith

-- `n` more requests, of which `t` threw.
abbrev Counted : Stats → Stats → ℕ → ℕ → Type 0
Counted s s' n t =
    (u64 s'.requests_total ≡ u64 (s.requests_total + n))
    × (u64 s'.handler_threw ≡ u64 (s.handler_threw + t))
    × (u64 (s'.responses_ok + s'.responses_error)
        ≡ u64 (s.responses_ok + s.responses_error + (n + t)))

handle-Counted :
    (d : RpcDispatcher) (x : List ℕ) → Counted d.stats (handle d x).0.stats 1 (throws d.methods x)
unfolding handle throws
handle-Counted d x = ground arith

handle_all-Counted :
    (xs : List (List ℕ)) (d : RpcDispatcher)
    → Counted d.stats (handle_all d xs).stats (length xs) (all_throws d.methods xs)
unfolding handle_all all_throws
handle_all-Counted [] d = (omega arith, omega arith, omega arith)
handle_all-Counted (x ∷ xs) d =
    let (n, t, r) = handle-Counted d x in
    let (ns, ts, rs) = handle_all-Counted xs (handle d x).0 in
    let same = ap (λ m. all_throws m xs) (handle-methods d x) in
    (omega (arith, n, ns), omega (arith, t, ts, same), omega (arith, r, rs, same))

-- After any requests, well-formed or not, to a dispatcher that starts with some methods and with its
-- counters at 0, and modulo 2 ^ 64: each request is in the total, each throw of a method in its
-- counter, and successes and errors together are the requests and the throws. So a request whose
-- method throws is counted as two answers.
pub handle_all-counted :
    (methods : List (List ℕ × RpcHandler)) (xs : List (List ℕ))
    → let s = (handle_all (record new { methods = methods }) xs).stats in
      let t = all_throws methods xs in
      (u64 s.requests_total ≡ u64 (length xs))
      × (u64 s.handler_threw ≡ u64 t)
      × (u64 (s.responses_ok + s.responses_error) ≡ u64 (length xs + t))
handle_all-counted methods xs =
    let (n, t, r) = handle_all-Counted xs (record new { methods = methods }) in
    (omega (arith, n), omega (arith, t), omega (arith, r))
