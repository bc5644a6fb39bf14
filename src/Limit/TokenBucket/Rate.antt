-- ===== src/Limit/TokenBucket/Rate.antt =====
-- How much a token bucket lets through.
use securelink.Common.{
  ℕ, ◌+◌, ◌-◌, ◌*◌, ◌≤◌, ◌≡◌, ap, ◌≢◌, List, [], ◌∷◌, arith, if◌then◌else◌, ◌==◌, Bool-cases, inl,
  inr, refl,
}
use securelink.Limit.TokenBucket.{TokenBucket, init, refill, try_take}

-- A caller's attempts, each with the time at which the bucket reads the clock and the bytes that it
-- asks for. The result is the bytes that were granted, and the bucket afterwards.
unfoldable pub take_all_of : TokenBucket → List (ℕ × ℕ) → ℕ × TokenBucket
take_all_of tb [] = (0, tb)
take_all_of tb ((now, bytes) ∷ calls) =
    let (granted, tb') = try_take now tb bytes in
    let (total, tb'') = take_all_of tb' calls in (if granted then bytes + total else total, tb'')

-- The clock never runs back: the calls come at `t` or later, in order, the last one at `end`.
abbrev pub Ordered : ℕ → List (ℕ × ℕ) → ℕ → Type 0
Ordered t [] end = t ≤ end
Ordered t ((now, bytes) ∷ calls) end = (t ≤ now) × Ordered now calls end

-- The tokens never pass the capacity.
pub refill_capped :
    (now : ℕ) (tb : TokenBucket)
    → tb.tokens ≤ tb.capacity_bytes
    → (refill now tb).tokens ≤ (refill now tb).capacity_bytes
unfolding refill
refill_capped now tb h = ground arith

spread : (r a b : ℕ) → a ≤ b → r * b ≡ r * a + r * (b - a)
spread r a b h =
    let split : b ≡ a + (b - a) = omega arith in omega (arith, ap (λ (t : ℕ). r * t) split)

-- What a refill adds is paid for by the time that it moves the clock on, also where the arithmetic
-- wraps.
refill_paid :
    (now : ℕ) (tb : TokenBucket)
    → tb.last_refill_us ≢ 0
    → ((refill now tb).tokens * 1000000 + tb.rate_bps * tb.last_refill_us
        ≤ tb.tokens * 1000000 + tb.rate_bps * (refill now tb).last_refill_us)
      × (tb.last_refill_us ≤ (refill now tb).last_refill_us)
      × ((refill now tb).rate_bps ≡ tb.rate_bps)
unfolding refill
refill_paid now tb h = ground (arith, spread tb.rate_bps tb.last_refill_us now)

-- So is what an attempt takes.
try_take_paid :
    (now bytes : ℕ) (tb : TokenBucket)
    → tb.last_refill_us ≢ 0
    → let (granted, tb') = try_take now tb bytes in
      ((if granted then bytes else 0) * 1000000
          + tb'.tokens * 1000000
          + tb.rate_bps * tb.last_refill_us
        ≤ tb.tokens * 1000000 + tb.rate_bps * tb'.last_refill_us)
      × (tb.last_refill_us ≤ tb'.last_refill_us)
      × (tb'.rate_bps ≡ tb.rate_bps)
unfolding try_take
try_take_paid now bytes tb h = ground (arith, refill_paid now tb h)

try_take_clock :
    (now bytes : ℕ) (tb : TokenBucket)
    → tb.last_refill_us ≤ now
    → (try_take now tb bytes).1.last_refill_us ≤ now
unfolding try_take refill
try_take_clock now bytes tb h = ground arith

Ordered-earlier :
    (calls : List (ℕ × ℕ)) (end : ℕ) {s t : ℕ} → s ≤ t → Ordered t calls end → Ordered s calls end
Ordered-earlier [] end h o = omega arith
Ordered-earlier ((now, bytes) ∷ calls) end h o = (omega arith, o.1)

Ordered-le : (calls : List (ℕ × ℕ)) (t end : ℕ) → Ordered t calls end → t ≤ end
Ordered-le [] t end o = o
Ordered-le ((now, bytes) ∷ calls) t end o = omega (arith, Ordered-le calls now end o.1)

-- From a bucket whose clock runs: the bytes granted and the tokens left are at most the tokens
-- there were and what the rate brings until the end.
take_all_of_paid :
    (calls : List (ℕ × ℕ)) (tb : TokenBucket) (end : ℕ)
    → tb.last_refill_us ≢ 0
    → Ordered tb.last_refill_us calls end
    → (take_all_of tb calls).0 * 1000000 + tb.rate_bps * tb.last_refill_us
      ≤ tb.tokens * 1000000 + tb.rate_bps * end
unfolding take_all_of
take_all_of_paid [] tb end h o = ground (arith, spread tb.rate_bps tb.last_refill_us end o)
take_all_of_paid ((now, bytes) ∷ calls) tb end h o =
    let tb' = (try_take now tb bytes).1 in
    let (paid, later, rate) = try_take_paid now bytes tb h in
    let clock = try_take_clock now bytes tb o.0 in
    let rest = take_all_of_paid calls tb' end (omega arith) (Ordered-earlier calls end clock o.1) in
    ground
      (arith, paid, rest, ap (λ (r : ℕ). r * tb'.last_refill_us) rate, ap (λ (r : ℕ). r * end) rate)

-- The first call of a bucket whose clock does not run starts it and brings no tokens.
first_take :
    (now bytes : ℕ) (tb : TokenBucket)
    → tb.last_refill_us ≡ 0
    → let (granted, tb') = try_take now tb bytes in
      ((if granted then bytes else 0) + tb'.tokens ≡ tb.tokens)
      × (tb'.last_refill_us ≡ now)
      × (tb'.rate_bps ≡ tb.rate_bps)
unfolding try_take refill
first_take now bytes tb h = ground arith

-- From a bucket whose clock does not run: the bytes granted are at most the tokens there were and
-- what the rate brings from the time `start`, which is not later than the calls. A call at the time 0
-- leaves the clock as it is.
take_all_of_unstarted :
    (calls : List (ℕ × ℕ)) (tb : TokenBucket) (start end : ℕ)
    → tb.last_refill_us ≡ 0
    → Ordered start calls end
    → (take_all_of tb calls).0 * 1000000 ≤ tb.tokens * 1000000 + tb.rate_bps * (end - start)
unfolding take_all_of
take_all_of_unstarted [] tb start end h o = omega arith
take_all_of_unstarted ((now, bytes) ∷ calls) tb start end h o =
    let tb' = (try_take now tb bytes).1 in
    let (all, clock, rate) = first_take now bytes tb h in
    elim (Bool-cases (now == 0)) [
      | inl e ↦
          let rest =
            take_all_of_unstarted calls tb' start end (ground (arith, e, clock))
              (Ordered-earlier calls end o.0 o.1) in
          ground (arith, all, rest, ap (λ (r : ℕ). r * (end - start)) rate)
      | inr e ↦
          let rest =
            take_all_of_paid calls tb' end (ground (arith, e, clock))
              (Ordered-earlier calls end (omega (arith, clock)) o.1) in
          ground (
            arith,
            all,
            rest,
            ap (λ (r : ℕ). r * tb'.last_refill_us) rate,
            ap (λ (t : ℕ). tb.rate_bps * t) clock,
            ap (λ (r : ℕ). r * end) rate,
            spread tb.rate_bps now end (Ordered-le calls now end o.1),
            spread tb.rate_bps start now o.0,
            spread tb.rate_bps start end (Ordered-le ((now, bytes) ∷ calls) start end o),
          )
    ]

-- Over any calls of `sl_token_bucket_try_take` on a fresh bucket, at times that do not run back and
-- of which the first is `start`, at most the capacity and what the rate brings from then to the end
-- are granted, also where the arithmetic of `refill` wraps, and where times are 0, which the bucket
-- takes for a clock that has not started.
pub granted-le-rate :
    (capacity rate start bytes end : ℕ) (calls : List (ℕ × ℕ))
    → Ordered start calls end
    → (take_all_of (init capacity rate) ((start, bytes) ∷ calls)).0 * 1000000
      ≤ capacity * 1000000 + rate * (end - start)
unfolding init
granted-le-rate capacity rate start bytes end calls o =
    take_all_of_unstarted ((start, bytes) ∷ calls) (init capacity rate) start end refl
      (omega arith, o)
