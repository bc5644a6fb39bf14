-- ===== src/Buffer/Ring.antt =====
-- src/sl_ring.c: a circular byte buffer with bulk reads and writes.
pub mod Inv
pub mod Refine
use securelink.Buffer.Circular.{copy_in, copy_out}
use securelink.Buffer.Fifo.{Op, push, pop, peek, discard, reset, Reply, count, bytes, done}
use securelink.Common.{
  ℕ, ◌+◌, ◌-◌, ◌%◌, ◌^◌, Bool, Option, none, some, List, [], ◌∷◌, ltb, ◌==◌, if◌then◌else◌, length,
  take, Outcome, ok, fail, ◌>>=◌, ◌>>◌, reject_if,
}
use securelink.Bytes.{u64}

-- `head` is the index to write at, `tail` the index to read from.
pub record Ring : Type 0 where
  pub buf : List ℕ
  pub cap : ℕ
  pub head : ℕ
  pub tail : ℕ
  pub used : ℕ

-- `sl_ring_init` over the allocation that `malloc` returned (`none`: it returned NULL).
unfoldable pub init : ℕ → Option (List ℕ) → Outcome Ring
init cap allocation = do
  reject_if (cap == 0)
  elim allocation [
    | none ↦ fail
    | some buf ↦ ok (record { buf = buf; cap = cap; head = 0; tail = 0; used = 0 })
  ]

-- `sl_ring_reset`
unfoldable pub reset_ring : Ring → Ring
reset_ring r = record r { head = 0; tail = 0; used = 0 }

-- `sl_ring_free_space`, a `size_t` subtraction
abbrev pub free_space : Ring → ℕ
free_space r = u64 (2 ^ 64 + r.cap - r.used)

-- `sl_ring_empty` and `sl_ring_full`
unfoldable pub is_empty : Ring → Bool
is_empty r = r.used == 0

unfoldable pub is_full : Ring → Bool
is_full r = r.used == r.cap

-- `sl_ring_push`: the number of bytes taken in.
unfoldable pub push_bytes : Ring → List ℕ → ℕ × Ring
push_bytes r xs =
    let space = free_space r in
    let n = if ltb (length xs) space then length xs else space in
    if n == 0 then (0, r) else (
      n,
      record r {
        buf = copy_in r.buf r.cap r.head (take n xs);
        head = u64 (r.head + n) % r.cap;
        used = u64 (r.used + n);
      },
    )

-- `sl_ring_peek`: the bytes copied to `out`, as many as it returns.
unfoldable pub peek_bytes : Ring → ℕ → List ℕ
peek_bytes r len =
    let n = if ltb len r.used then len else r.used in
    if n == 0 then [] else copy_out r.buf r.cap r.tail n

-- `sl_ring_pop`
unfoldable pub pop_bytes : Ring → ℕ → List ℕ × Ring
pop_bytes r len =
    let n = if ltb len r.used then len else r.used in
    if n == 0 then ([], r) else (
      copy_out r.buf r.cap r.tail n,
      record r { tail = u64 (r.tail + n) % r.cap; used = r.used - n },
    )

-- `sl_ring_discard`
unfoldable pub discard_bytes : Ring → ℕ → ℕ × Ring
discard_bytes r n =
    let k = if ltb n r.used then n else r.used in
    (k, record r { tail = u64 (r.tail + k) % r.cap; used = r.used - k })

-- A caller's operations, one after the other.
unfoldable pub step : Ring → Op → Reply × Ring
step r (push xs) = let (n, r') = push_bytes r xs in (count n, r')
step r (pop n) = let (out, r') = pop_bytes r n in (bytes out, r')
step r (peek n) = (bytes (peek_bytes r n), r)
step r (discard n) = let (k, r') = discard_bytes r n in (count k, r')
step r reset = (done, reset_ring r)

unfoldable pub run : Ring → List Op → List Reply
run r [] = []
run r (op ∷ ops) = let (reply, r') = step r op in reply ∷ run r' ops
