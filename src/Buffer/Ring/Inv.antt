-- ===== src/Buffer/Ring/Inv.antt =====
-- The representation invariant of `sl_ring_t`.
use native.Mathlib.Nat.{mod-lt}
use securelink.Buffer.Circular.{copy_in}
use securelink.Buffer.Circular.Span.{length-copy_in, move_head, move_tail}
use securelink.Buffer.Fifo.{Op, push, pop, peek, discard, reset}
use securelink.Common.{
  ℕ, ◌+◌, ◌-◌, ◌%◌, ◌^◌, ◌≤◌, ◌<◌, min, ◌≡◌, ◌∙◌, inl, inr, some, List, arith, ltb, ◌==◌,
  if◌then◌else◌, Bool-cases, length, take, ok,
}
use securelink.Bytes.{u64}
use securelink.Buffer.Ring.{
  Ring, init, reset_ring, free_space, push_bytes, pop_bytes, discard_bytes, step,
}

-- No allocation is larger than half the address space.
pub record IsValid (r : Ring) : Type 0 where
  pub storage : length r.buf ≡ r.cap
  pub positive : 0 < r.cap
  pub small : r.cap ≤ 2 ^ 63
  pub tail_in : r.tail < r.cap
  pub used_in : r.used ≤ r.cap
  pub head_at : r.head ≡ (r.tail + r.used) % r.cap

-- What `sl_ring_init` makes of an allocation of `cap` bytes is valid and empty.
pub ring_init-IsValid :
    (cap : ℕ) (buf : List ℕ) (r : Ring)
    → length buf ≡ cap
    → cap ≤ 2 ^ 63
    → init cap (some buf) ≡ ok r
    → IsValid r × (r.used ≡ 0) × (r.cap ≡ cap)
unfolding init
ring_init-IsValid cap buf r full small e = ground arith

-- How many bytes `sl_ring_push` takes in.
abbrev pub taken : Ring → List ℕ → ℕ
taken r xs = min (length xs) (r.cap - r.used)

head-in : {r : Ring} → IsValid r → r.head < r.cap
head-in {r} v = omega (arith, v.head_at, mod-lt (r.tail + r.used) v.positive)

-- What `sl_ring_push` does, with nothing wrapping.
pub push_bytes_lem :
    (r : Ring) (xs : List ℕ)
    → IsValid r
    → push_bytes r xs ≡ (
        if taken r xs == 0 then (0, r) else (
          taken r xs,
          record r {
            buf = copy_in r.buf r.cap r.head (take (taken r xs) xs);
            head = (r.head + taken r xs) % r.cap;
            used = r.used + taken r xs;
          },
        ))
unfolding push_bytes
push_bytes_lem r xs v =
    let n = taken r xs in
    let space : free_space r ≡ r.cap - r.used = omega arith in
    let pick : (if ltb (length xs) (r.cap - r.used) then length xs else r.cap - r.used) ≡ n =
      ground arith in
    let head : u64 (r.head + n) ≡ r.head + n = omega (arith, head-in v) in
    let used : u64 (r.used + n) ≡ r.used + n = omega arith in rw (space, pick, head, used)

-- What `sl_ring_pop` and `sl_ring_discard` do to the read index, with nothing wrapping.
pub tail_lem :
    (r : Ring) (n : ℕ)
    → IsValid r
    → ((if ltb n r.used then n else r.used) ≡ min n r.used)
      × (u64 (r.tail + min n r.used) ≡ r.tail + min n r.used)
tail_lem r n v = (ground arith, omega arith)

pub pushed-IsValid :
    (r : Ring) (xs : List ℕ) (n : ℕ)
    → IsValid r
    → n ≤ r.cap - r.used
    → IsValid (record r {
      buf = copy_in r.buf r.cap r.head xs;
      head = (r.head + n) % r.cap;
      used = r.used + n;
    })
pushed-IsValid r xs n v h = record {
  storage = length-copy_in r.buf xs r.cap r.head ∙ v.storage;
  positive = v.positive;
  small = v.small;
  tail_in = v.tail_in;
  used_in = omega arith;
  head_at = rw v.head_at (move_head r.cap r.tail r.used n);
}

pub read-IsValid :
    (r : Ring) (n : ℕ)
    → IsValid r
    → n ≤ r.used
    → IsValid (record r { tail = (r.tail + n) % r.cap; used = r.used - n })
read-IsValid r n v h = record {
  storage = v.storage;
  positive = v.positive;
  small = v.small;
  tail_in = mod-lt (r.tail + n) v.positive;
  used_in = omega arith;
  head_at = v.head_at ∙ move_tail r.cap r.tail r.used n h;
}

pub push_bytes-IsValid : (r : Ring) (xs : List ℕ) → IsValid r → IsValid (push_bytes r xs).1
push_bytes-IsValid r xs v = elim (Bool-cases (taken r xs == 0)) [
  | inl nothing ↦ rw (push_bytes_lem r xs v, nothing) v
  | inr more ↦
      rw (push_bytes_lem r xs v, more)
        (pushed-IsValid r (take (taken r xs) xs) (taken r xs) v (omega arith))
]

pub pop_bytes-IsValid : (r : Ring) (n : ℕ) → IsValid r → IsValid (pop_bytes r n).1
unfolding pop_bytes
pop_bytes-IsValid r n v =
    let (pick, tail) = tail_lem r n v in
    elim (Bool-cases (min n r.used == 0)) [
      | inl nothing ↦ rw (pick, nothing) v
      | inr more ↦ rw (pick, more, tail) (read-IsValid r (min n r.used) v (omega arith))
    ]

pub discard_bytes-IsValid : (r : Ring) (n : ℕ) → IsValid r → IsValid (discard_bytes r n).1
unfolding discard_bytes
discard_bytes-IsValid r n v =
    let (pick, tail) = tail_lem r n v in
    rw (pick, tail) (read-IsValid r (min n r.used) v (omega arith))

pub reset_ring-IsValid : (r : Ring) → IsValid r → IsValid (reset_ring r)
unfolding reset_ring
reset_ring-IsValid r v = ground arith

-- Every operation keeps the invariant.
pub ring_step-IsValid : (r : Ring) (op : Op) → IsValid r → IsValid (step r op).1
unfolding step
ring_step-IsValid r (push xs) v = push_bytes-IsValid r xs v
ring_step-IsValid r (pop n) v = pop_bytes-IsValid r n v
ring_step-IsValid r (peek n) v = v
ring_step-IsValid r (discard n) v = discard_bytes-IsValid r n v
ring_step-IsValid r reset v = reset_ring-IsValid r v
