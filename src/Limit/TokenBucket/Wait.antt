-- ===== src/Limit/TokenBucket/Wait.antt =====
-- Waiting times of src/sl_token_bucket.c.
use native.Mathlib.Nat.{mod-lt, div-add-mod, mul_assoc, mul-le-mul_left}
use securelink.Common.{ℕ, ◌+◌, ◌-◌, ◌*◌, ◌/◌, ◌^◌, ◌≤◌, ◌<◌, ◌≡◌, sym, ◌≢◌, ◌⊎◌, true, arith}
use securelink.Limit.TokenBucket.{TokenBucket, refill, try_take, u32_max, wait_ms}

refill_keeps :
    (now : ℕ) (tb : TokenBucket)
    → tb.last_refill_us ≢ 0
    → tb.last_refill_us ≤ now
    → tb.tokens ≤ tb.capacity_bytes
    → ((refill now tb).capacity_bytes ≡ tb.capacity_bytes)
      × ((refill now tb).rate_bps ≡ tb.rate_bps)
      × ((refill now tb).tokens ≤ tb.capacity_bytes)
      × (tb.last_refill_us ≤ (refill now tb).last_refill_us)
      × ((refill now tb).last_refill_us ≤ now)
unfolding refill
refill_keeps now tb h0 h1 h2 = ground arith

refill_gains :
    (later need : ℕ) (tb : TokenBucket)
    → tb.last_refill_us ≢ 0
    → need ≤ tb.capacity_bytes
    → tb.capacity_bytes + tb.rate_bps * (later - tb.last_refill_us) < 2 ^ 64
    → tb.tokens ≤ tb.capacity_bytes
    → need ≤ tb.tokens + tb.rate_bps * (later - tb.last_refill_us) / 1000000
    → need ≤ (refill later tb).tokens
unfolding refill
refill_gains later need tb h0 h1 h2 h3 h4 = ground arith

-- `(x + r - 1) / r` rounds up.
ceiling : (x r : ℕ) → 0 < r → x ≤ r * ((x + r - 1) / r)
ceiling x r h = omega (arith, div-add-mod (x + r - 1) r, mod-lt (x + r - 1) h)

wait_ms_lem :
    (now bytes : ℕ) (tb : TokenBucket)
    → 0 < tb.rate_bps
    → bytes * 1000 + tb.rate_bps < 2 ^ 64
    → (wait_ms now tb bytes).0 < u32_max
    → ((bytes ≤ (refill now tb).tokens) ⊎ ((refill now tb).tokens < bytes))
      × ((wait_ms now tb bytes).1 ≡ refill now tb)
      × ((bytes - (refill now tb).tokens) * 1000 ≤ tb.rate_bps * (wait_ms now tb bytes).0)
unfolding wait_ms
wait_ms_lem now bytes tb h2 h5 h6 =
    let deficit = bytes - (refill now tb).tokens in
    ground (arith, ceiling (deficit * 1000) tb.rate_bps h2)

waited :
    (rate last now later ms deficit : ℕ)
    → last ≤ now
    → now + ms * 1000 ≤ later
    → deficit * 1000 ≤ rate * ms
    → deficit ≤ rate * (later - last) / 1000000
waited rate last now later ms deficit h h7 e =
    let time : ms * 1000 ≤ later - last = omega arith in
    let grown : rate * (ms * 1000) ≤ rate * (later - last) = mul-le-mul_left rate time in
    let same : rate * (ms * 1000) ≡ rate * ms * 1000 = sym (mul_assoc rate ms 1000) in
    omega (
      arith,
      grown,
      same,
      div-add-mod (rate * (later - last)) 1000000,
      mod-lt (rate * (later - last)) {m = 1000000} (omega arith),
    )

-- Where nothing wraps and the bytes are within the capacity, `sl_token_bucket_wait_ms` says how long
-- to wait: an attempt made that many milliseconds later or after is granted.
pub wait_ms_suffices :
    (now later bytes : ℕ) (tb : TokenBucket)
    → tb.last_refill_us ≢ 0
    → tb.last_refill_us ≤ now
    → 0 < tb.rate_bps
    → tb.tokens ≤ tb.capacity_bytes
    → bytes ≤ tb.capacity_bytes
    → bytes * 1000 + tb.rate_bps < 2 ^ 64
    → (wait_ms now tb bytes).0 < u32_max
    → now + (wait_ms now tb bytes).0 * 1000 ≤ later
    → tb.capacity_bytes + tb.rate_bps * (later - tb.last_refill_us) < 2 ^ 64
    → (try_take later (wait_ms now tb bytes).1 bytes).0 ≡ true
unfolding try_take
wait_ms_suffices now later bytes tb h0 h1 h2 h3 h4 h5 h6 h7 h8 =
    let tb' = refill now tb in
    let (cap, rate, full, moved, clock) = refill_keeps now tb h0 h1 h3 in
    let (_, state, enough) = wait_ms_lem now bytes tb h2 h5 h6 in
    let need : bytes ≤ tb'.tokens + tb'.rate_bps * (later - tb'.last_refill_us) / 1000000 =
      (let d =
          waited tb'.rate_bps tb'.last_refill_us now later (wait_ms now tb bytes).0
            (bytes - tb'.tokens) clock h7 (rw rate enough) in
        omega (arith, d)) in
    let fewer : tb'.rate_bps * (later - tb'.last_refill_us)
        ≤ tb.rate_bps * (later - tb.last_refill_us) =
      rw rate (mul-le-mul_left tb.rate_bps (omega arith)) in
    let gains : bytes ≤ (refill later tb').tokens =
      refill_gains later bytes tb' (omega arith) (rw cap h4) (omega arith) (rw cap full) need in
    ground (arith, gains, state)
