-- ===== src/Buffer/SendQueue.antt =====
-- src/sl_send_queue.c: bytes queued for a socket that does not block.
pub mod Flush
use securelink.Buffer.Circular.{copy_in, first_part}
use securelink.Common.{
  ℕ, ◌+◌, ◌-◌, ◌%◌, ◌≤◌, Option, none, some, List, [], ◌∷◌, ◌++◌, ltb, ◌==◌, if◌then◌else◌, length,
  take, drop, Outcome, ok, fail,
}
use securelink.Bytes.{u32, u64}

-- `head` is the next byte to send, `tail` the next to write to.
pub record SendQueue : Type 0 where
  pub buf : List ℕ
  pub cap : ℕ
  pub head : ℕ
  pub tail : ℕ
  pub used : ℕ

-- `sl_send_queue_new` over the two allocations (`none`: one of them failed).
unfoldable pub new : ℕ → Option (List ℕ) → Option SendQueue
new max_bytes allocation = if max_bytes == 0 then none else elim allocation [
  | none ↦ none
  | some buf ↦ some (record { buf = buf; cap = max_bytes; head = 0; tail = 0; used = 0 })
]

-- `sl_send_queue_enqueue`
unfoldable pub enqueue : SendQueue → List ℕ → Outcome SendQueue
enqueue q xs =
    if length xs == 0
    then ok q
    else if ltb q.cap (u64 (q.used + length xs))
    then fail
    else ok (record q {
      buf = copy_in q.buf q.cap q.tail xs;
      tail = u64 (q.tail + length xs) % q.cap;
      used = u64 (q.used + length xs);
    })

-- What `send` comes back with: the number of bytes that it took, `EAGAIN` or `EWOULDBLOCK`, `EINTR`,
-- or another error.
pub data Answer : Type 0 where
  wrote : ℕ → Answer
  again : Answer
  interrupted : Answer
  broken : Answer

-- `flush` returns the total, of which these are the 32 bits, or -1. `waiting` is no return value: the answers given here ended while
-- the loop would call `send` once more.
pub data Flushed : Type 0 where
  total : ℕ → Flushed
  error : Flushed
  waiting : Flushed

-- The bytes that the next call of `send` offers: up to the end of the buffer.
abbrev pub chunk : SendQueue → ℕ
chunk q = first_part q.cap q.head q.used

abbrev pub sent : SendQueue → ℕ → SendQueue
sent q w = record q { head = u64 (q.head + w) % q.cap; used = q.used - w }

-- `total += (int)w`: the 32 bits of the `int`, which wrap; from 2 ^ 31 on they stand for a negative
-- number, and the source has no check against it.
abbrev pub add_int : ℕ → ℕ → ℕ
add_int n w = u32 (n + u32 w)

-- The loop of `sl_send_queue_flush`, an answer of `send` for each round; with it the bytes that went
-- to the socket.
unfoldable pub flush_loop : List Answer → SendQueue → ℕ → List ℕ → Flushed × SendQueue × List ℕ
flush_loop [] q n out = if ltb 0 q.used then (waiting, q, out) else (total n, q, out)
flush_loop (wrote w ∷ answers) q n out =
    let bytes = take w (take (chunk q) (drop q.head q.buf)) in
    let rest = flush_loop answers (sent q w) (add_int n w) (out ++ bytes) in
    if ltb 0 q.used then (if ltb 0 w then rest else (error, q, out)) else (total n, q, out)
flush_loop (again ∷ answers) q n out = (total n, q, out)
flush_loop (interrupted ∷ answers) q n out =
    let rest = flush_loop answers q n out in if ltb 0 q.used then rest else (total n, q, out)
flush_loop (broken ∷ answers) q n out = if ltb 0 q.used then (error, q, out) else (total n, q, out)

unfoldable pub flush : SendQueue → List Answer → Flushed × SendQueue × List ℕ
flush q answers = flush_loop answers q 0 []

-- `send` takes no more bytes than it is offered.
abbrev pub Honest : List Answer → SendQueue → Type 0
Honest [] q = Unit
Honest (wrote w ∷ answers) q = (w ≤ chunk q) × Honest answers (sent q w)
Honest (again ∷ answers) q = Unit
Honest (interrupted ∷ answers) q = Honest answers q
Honest (broken ∷ answers) q = Unit
