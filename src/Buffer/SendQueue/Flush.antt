-- ===== src/Buffer/SendQueue/Flush.antt =====
-- The send queue neither loses, repeats nor reorders a byte.
use native.Mathlib.Decide.{dec_lt}
use native.Mathlib.Nat.{mod-lt}
use securelink.Buffer.Circular.{span, copy_in}
use securelink.Buffer.Circular.Span.{
  length-span, span-advance, span-copy_in, length-copy_in, move_head, move_tail,
}
use securelink.Common.{
  ℕ, ◌+◌, ◌-◌, ◌%◌, ◌^◌, ◌≤◌, ◌<◌, ◌≡◌, refl, sym, ap, ◌∙◌, ◌⊎◌, inl, inr, List, [], ◌∷◌, ◌++◌,
  append_assoc, append-nil, arith, ltb, ◌==◌, Bool-cases, length, take, drop, length-append,
  length-take, length-drop, take-append-drop, take-append_le, take-take, ok, fail,
}
use securelink.Bytes.{u32, u64}
use securelink.Buffer.SendQueue.{
  SendQueue, enqueue, Answer, Flushed, chunk, sent, add_int, flush_loop, flush, Honest, wrote,
  again, interrupted, broken, total, error, waiting,
}

-- No allocation is larger than half the address space.
pub record IsValid (q : SendQueue) : Type 0 where
  pub storage : length q.buf ≡ q.cap
  pub positive : 0 < q.cap
  pub small : q.cap ≤ 2 ^ 63
  pub head_in : q.head < q.cap
  pub used_in : q.used ≤ q.cap
  pub tail_at : q.tail ≡ (q.head + q.used) % q.cap

-- The bytes that wait, the next to send first.
abbrev pub contents : SendQueue → List ℕ
contents q = span q.buf q.head q.used

tail_in : (q : SendQueue) → IsValid q → q.tail < q.cap
tail_in q v = omega (arith, v.tail_at, mod-lt (q.head + q.used) v.positive)

grown : SendQueue → List ℕ → SendQueue
grown q xs = record q {
  buf = copy_in q.buf q.cap q.tail xs;
  tail = (q.tail + length xs) % q.cap;
  used = q.used + length xs;
}

grown-IsValid :
    (q : SendQueue) (xs : List ℕ) → IsValid q → q.used + length xs ≤ q.cap → IsValid (grown q xs)
unfolding grown
grown-IsValid q xs v fits = record {
  storage = length-copy_in q.buf xs q.cap q.tail ∙ v.storage;
  positive = v.positive;
  small = v.small;
  head_in = v.head_in;
  used_in = fits;
  tail_at = rw v.tail_at (move_head q.cap q.head q.used (length xs));
}

-- `sl_send_queue_enqueue` takes all the bytes, behind those that wait, or none of them: it refuses
-- just when they do not fit.
pub enqueue_lem :
    (q : SendQueue) (xs : List ℕ)
    → IsValid q
    → q.used + length xs < 2 ^ 64
    → ((q.cap < q.used + length xs) × (enqueue q xs ≡ fail))
      ⊎ ((q' : SendQueue) × (enqueue q xs ≡ ok q')
          × (q.used + length xs ≤ q.cap)
          × IsValid q'
          × (contents q' ≡ contents q ++ xs))
unfolding enqueue grown
enqueue_lem q xs v small = elim (dec_lt q.cap (q.used + length xs)) [
  | yes over ↦ inl (over, ground arith)
  | no fits ↦ inr (elim (Bool-cases (length xs == 0)) [
    | inl nothing ↦ (q, rw nothing, omega arith, v, no_bytes xs (ground arith))
    | inr more ↦ (
      grown q xs,
      ground (arith, tail_in q v),
      omega arith,
      grown-IsValid q xs v (omega arith),
      span-copy_in q.buf xs q.cap q.head q.used q.tail v.storage v.head_in (omega arith) v.tail_at,
    )
  ])
]
  where
    no_bytes : (ys : List ℕ) → length ys ≡ 0 → contents q ≡ contents q ++ ys
    no_bytes [] e = sym (append-nil (contents q))
    no_bytes (y ∷ ys) e = absurd (omega arith)

sent-IsValid :
    (q : SendQueue) (w : ℕ)
    → IsValid q
    → w ≤ chunk q
    → IsValid (sent q w)
      × (contents q ≡ take w (take (chunk q) (drop q.head q.buf)) ++ contents (sent q w))
      × (length (take w (take (chunk q) (drop q.head q.buf))) ≡ w)
unfolding span
sent-IsValid q w v h =
    let wrap : u64 (q.head + w) ≡ q.head + w = ground arith in
    let small : w ≤ q.used = ground arith in
    let straight : w ≤ q.cap - q.head = ground arith in
    let all = drop q.head q.buf ++ take q.head q.buf in
    let part : take w (take (chunk q) (drop q.head q.buf)) ≡ take w (contents q) =
      take-take w (chunk q) (drop q.head q.buf) h
      ∙ sym (
          take-append_le w (drop q.head q.buf) (take q.head q.buf)
            (omega (arith, length-drop q.head q.buf)))
      ∙ sym (take-take w q.used all small) in
    let tail : contents (sent q w) ≡ drop w (contents q) =
      ap (λ k. span q.buf (k % q.cap) (q.used - w)) wrap
      ∙ span-advance q.buf q.cap v.storage q.head w q.used v.head_in small v.used_in in
    (
      record {
        storage = v.storage;
        positive = v.positive;
        small = v.small;
        head_in = mod-lt (u64 (q.head + w)) v.positive;
        used_in = omega arith;
        tail_at =
            v.tail_at
            ∙ move_tail q.cap q.head q.used w small
            ∙ ap (λ k. (k % q.cap + (q.used - w)) % q.cap) (sym wrap);
      },
      rw (part, tail) (sym (take-append-drop w (contents q))),
      omega (
        arith,
        ap length part,
        length-take w (contents q),
        length-span q.buf q.cap v.storage q.head q.used,
      ),
    )

-- A total counts the bytes that were sent, modulo 2 ^ 32.
abbrev pub Counts : Flushed → ℕ → Type 0
Counts (total k) n = k ≡ u32 n
Counts error n = Unit
Counts waiting n = Unit

-- What the loop leaves, entered with the total `n` and the bytes `out` gone to the socket.
pub record Kept (q : SendQueue) (out : List ℕ) (r : Flushed × SendQueue × List ℕ) : Type 0 where
  pub valid : IsValid r.1
  pub bytes : out ++ contents q ≡ r.2 ++ contents r.1
  pub counts : Counts r.0 (length r.2)

flush_loop-Kept :
    (answers : List Answer) (q : SendQueue) (n : ℕ) (out : List ℕ)
    → IsValid q
    → n ≡ u32 (length out)
    → Honest answers q
    → Kept q out (flush_loop answers q n out)
unfolding flush_loop
flush_loop-Kept [] q n out v e h = ground arith
flush_loop-Kept (wrote w ∷ answers) q n out v e h =
    let bytes = take w (take (chunk q) (drop q.head q.buf)) in
    let (valid, moved, size) = sent-IsValid q w v h.0 in
    let total_sent = length-append out bytes in
    let kept =
      flush_loop-Kept answers (sent q w) (add_int n w) (out ++ bytes) valid (ground arith) h.1 in
    let same : out ++ contents q ≡ (out ++ bytes) ++ contents (sent q w) =
      ap (λ t. out ++ t) moved ∙ sym (append_assoc out bytes (contents (sent q w))) in
    elim (Bool-cases (ltb 0 q.used)) [
      | inl some_left ↦ elim (Bool-cases (ltb 0 w)) [
        | inl some_sent ↦
            rw (some_left, some_sent)
              (record { valid = kept.valid; bytes = same ∙ kept.bytes; counts = kept.counts })
        | inr none_sent ↦
            rw (some_left, none_sent) (record { valid = v; bytes = refl; counts = tt })
      ]
      | inr none_left ↦ rw none_left (record { valid = v; bytes = refl; counts = e })
    ]
flush_loop-Kept (again ∷ answers) q n out v e h = record { valid = v; bytes = refl; counts = e }
flush_loop-Kept (interrupted ∷ answers) q n out v e h =
    let kept = flush_loop-Kept answers q n out v e h in
    elim (Bool-cases (ltb 0 q.used)) [
      | inl some_left ↦ rw some_left kept
      | inr none_left ↦ rw none_left (record { valid = v; bytes = refl; counts = e })
    ]
flush_loop-Kept (broken ∷ answers) q n out v e h = elim (Bool-cases (ltb 0 q.used)) [
  | inl some_left ↦ rw some_left (record { valid = v; bytes = refl; counts = tt })
  | inr none_left ↦ rw none_left (record { valid = v; bytes = refl; counts = e })
]

-- On a valid queue, and with a `send` that takes no more bytes than it is offered,
-- `sl_send_queue_flush` sends the oldest bytes and keeps the others, in order, also where it fails
-- half-way; the total that it returns is the number of bytes sent, modulo 2 ^ 32.
pub flush_lem :
    (q : SendQueue) (answers : List Answer)
    → IsValid q
    → Honest answers q
    → let (r, q', out) = flush q answers in
      IsValid q' × (contents q ≡ out ++ contents q') × Counts r (length out)
unfolding flush
flush_lem q answers v h =
    let kept = flush_loop-Kept answers q 0 [] v refl h in (kept.valid, kept.bytes, kept.counts)

-- Every answer takes a byte at least.
abbrev pub AllTake : List Answer → Type 0
AllTake [] = Unit
AllTake (wrote w ∷ answers) = (0 < w) × AllTake answers
AllTake (again ∷ answers) = ⊥
AllTake (interrupted ∷ answers) = ⊥
AllTake (broken ∷ answers) = ⊥
