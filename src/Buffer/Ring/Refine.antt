-- ===== src/Buffer/Ring/Refine.antt =====
-- A valid ring behaves as the queue of the bytes that it holds.
use securelink.Buffer.Circular.{span, copy_in, copy_out}
use securelink.Buffer.Circular.Span.{
  length-span, copy_out_lem, take-span, span-advance, span-copy_in,
}
use securelink.Buffer.Fifo
use securelink.Buffer.Fifo.{Op, push, pop, peek, discard, reset, Reply, count, bytes, done}
use securelink.Common.{
  ℕ, ◌+◌, ◌-◌, ◌%◌, min, ◌≡◌, refl, sym, ap, ◌∙◌, inl, inr, List, [], ◌∷◌, ◌++◌, append-nil, arith,
  ◌==◌, Bool-cases, length, take, drop, length-take, take-min, drop-min,
}
use securelink.Buffer.Ring.{
  Ring, reset_ring, push_bytes, peek_bytes, pop_bytes, discard_bytes, step, run,
}
use securelink.Buffer.Ring.Inv.{IsValid, taken, push_bytes_lem, tail_lem, ring_step-IsValid}

-- The bytes in a ring, oldest first.
abbrev pub contents : Ring → List ℕ
contents r = span r.buf r.tail r.used

length-contents : (r : Ring) → IsValid r → length (contents r) ≡ r.used
length-contents r v = length-span r.buf r.cap v.storage r.tail r.used (omega arith) v.used_in

-- Reading `n` bytes out gives the first `n` of the contents, or all that there are.
read_out :
    (r : Ring) (n : ℕ)
    → IsValid r
    → copy_out r.buf r.cap r.tail (min n r.used) ≡ take n (contents r)
read_out r n v =
    copy_out_lem r.buf r.cap v.storage r.tail (min n r.used) v.tail_in (omega arith)
    ∙ sym (take-span r.buf r.cap v.storage r.tail (min n r.used) r.used (omega arith))
    ∙ take-min n r.used (contents r) (length-contents r v)

left_behind :
    (r : Ring) (n : ℕ)
    → IsValid r
    → span r.buf ((r.tail + min n r.used) % r.cap) (r.used - min n r.used) ≡ drop n (contents r)
left_behind r n v =
    span-advance r.buf r.cap v.storage r.tail (min n r.used) r.used v.tail_in (omega arith)
      v.used_in
    ∙ drop-min n r.used (contents r) (length-contents r v)

take-taken : (r : Ring) (xs : List ℕ) → take (taken r xs) xs ≡ take (r.cap - r.used) xs
take-taken r xs =
    ap (λ k. take k xs) {y = min (r.cap - r.used) (length xs)} (omega arith)
    ∙ take-min (r.cap - r.used) (length xs) xs refl

grown :
    (r : Ring) (xs : List ℕ)
    → IsValid r
    → span (copy_in r.buf r.cap r.head (take (taken r xs) xs)) r.tail (r.used + taken r xs)
      ≡ contents r ++ take (r.cap - r.used) xs
grown r xs v =
    let new = take (taken r xs) xs in
    let size : length new ≡ taken r xs = omega (arith, length-take (taken r xs) xs) in
    ap (λ k. span (copy_in r.buf r.cap r.head new) r.tail (r.used + k)) (sym size)
    ∙ span-copy_in r.buf new r.cap r.tail r.used r.head v.storage v.tail_in (omega arith) v.head_at
    ∙ ap (λ t. contents r ++ t) (take-taken r xs)

-- `sl_ring_push` appends as many bytes as fit, and returns their number.
pub push_refines :
    (r : Ring) (xs : List ℕ)
    → IsValid r
    → let (n, r') = push_bytes r xs in
      (n ≡ min (length xs) (r.cap - r.used))
      × (contents r' ≡ contents r ++ take (r.cap - r.used) xs)
      × (r'.cap ≡ r.cap)
push_refines r xs v = elim (Bool-cases (taken r xs == 0)) [
  | inl nothing ↦
      let none_fit : take (r.cap - r.used) xs ≡ [] =
        sym (take-taken r xs) ∙ ap (λ k. take k xs) {y = 0} (ground arith) in
      rw (push_bytes_lem r xs v, nothing)
        (ground arith, sym (ap (λ t. contents r ++ t) none_fit ∙ append-nil (contents r)), refl)
  | inr more ↦ rw (push_bytes_lem r xs v, more) (refl, grown r xs v, refl)
]

-- `sl_ring_peek` and `sl_ring_pop` return the oldest bytes; the one keeps the ring as it is, the
-- other leaves the rest.
pub pop_refines :
    (r : Ring) (n : ℕ)
    → IsValid r
    → let (out, r') = pop_bytes r n in
      (out ≡ take n (contents r))
      × (peek_bytes r n ≡ take n (contents r))
      × (contents r' ≡ drop n (contents r))
      × (r'.cap ≡ r.cap)
unfolding pop_bytes peek_bytes
pop_refines r n v =
    let (pick, tail) = tail_lem r n v in
    elim (Bool-cases (min n r.used == 0)) [
      | inl nothing ↦
          let same : min n r.used ≡ 0 → drop n (contents r) ≡ contents r = λ e.
            sym (drop-min n r.used (contents r) (length-contents r v))
            ∙ ap (λ j. drop j (contents r)) e in
          let empty : min n r.used ≡ 0 → take n (contents r) ≡ [] = λ e.
            sym (take-min n r.used (contents r) (length-contents r v))
            ∙ ap (λ j. take j (contents r)) e in
          rw (pick, nothing)
            (
              sym (empty (ground arith)),
              sym (empty (ground arith)),
              sym (same (ground arith)),
              refl,
            )
      | inr more ↦ rw (pick, more, tail) (read_out r n v, read_out r n v, left_behind r n v, refl)
    ]

pub discard_refines :
    (r : Ring) (n : ℕ)
    → IsValid r
    → let (k, r') = discard_bytes r n in
      (k ≡ min n r.used) × (contents r' ≡ drop n (contents r)) × (r'.cap ≡ r.cap)
unfolding discard_bytes
discard_refines r n v =
    let (pick, tail) = tail_lem r n v in rw (pick, tail) (refl, left_behind r n v, refl)

-- One operation on a valid ring gives the reply of the queue of its contents, and leaves the ring
-- holding that queue.
pub step_refines :
    (r : Ring) (op : Op)
    → IsValid r
    → let (reply, r') = step r op in
      ((reply, contents r') ≡ Fifo.step r.cap (contents r) op) × (r'.cap ≡ r.cap)
unfolding step Fifo.step reset_ring span
step_refines r (push xs) v = ground (arith, push_refines r xs v, length-contents r v)
step_refines r (pop n) v = ground (arith, pop_refines r n v)
step_refines r (peek n) v = ground (arith, pop_refines r n v)
step_refines r (discard n) v = ground (arith, discard_refines r n v, length-contents r v)
step_refines r reset v = ground arith

-- No sequence of operations tells a valid ring from the bounded queue of its contents.
pub run_refines :
    (r : Ring) (ops : List Op) → IsValid r → run r ops ≡ Fifo.run r.cap (contents r) ops
unfolding run Fifo.run
run_refines r [] v = refl
run_refines r (op ∷ ops) v =
    let (same, cap) = step_refines r op v in
    ground (arith, run_refines (step r op).1 ops (ring_step-IsValid r op v), same, cap)
