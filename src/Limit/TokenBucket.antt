-- ===== src/Limit/TokenBucket.antt =====
-- src/sl_token_bucket.c: a rate with a burst. `now`, in microseconds, is what the monotonic clock
-- says when the function asks for it.
pub mod Rate
pub mod Wait
use securelink.Common.{ℕ, ◌+◌, ◌-◌, ◌*◌, ◌/◌, ◌^◌, Bool, true, false, ltb, leb, ◌==◌, if◌then◌else◌}
use securelink.Bytes.{u64}

pub record TokenBucket : Type 0 where
  pub capacity_bytes : ℕ
  pub rate_bps : ℕ
  pub tokens : ℕ
  pub last_refill_us : ℕ

-- `sl_token_bucket_init`
unfoldable pub init : ℕ → ℕ → TokenBucket
init capacity_bytes rate_bps = record {
  capacity_bytes = capacity_bytes;
  rate_bps = rate_bps;
  tokens = capacity_bytes;
  last_refill_us = 0;
}

-- `refill`; the product and the sum wrap as `uint64_t`.
unfoldable pub refill : ℕ → TokenBucket → TokenBucket
refill now tb =
    if tb.last_refill_us == 0
    then record tb { last_refill_us = now }
    else if leb now tb.last_refill_us
    then tb
    else (let elapsed_us = now - tb.last_refill_us in
        let add = u64 (tb.rate_bps * elapsed_us) / 1000000 in
        let sum = u64 (tb.tokens + add) in
        if add == 0 then tb else record tb {
          tokens = if ltb tb.capacity_bytes sum then tb.capacity_bytes else sum;
          last_refill_us = now;
        })

-- `sl_token_bucket_try_take`: true for its 0.
unfoldable pub try_take : ℕ → TokenBucket → ℕ → Bool × TokenBucket
try_take now tb bytes =
    let tb' = refill now tb in
    if ltb tb'.tokens bytes
    then (false, tb')
    else (true, record tb' { tokens = tb'.tokens - bytes })

abbrev pub u32_max : ℕ
u32_max = 2 ^ 32 - 1

-- `sl_token_bucket_wait_ms`, whose arithmetic wraps as `uint64_t`
unfoldable pub wait_ms : ℕ → TokenBucket → ℕ → ℕ × TokenBucket
wait_ms now tb bytes =
    let tb' = refill now tb in
    let deficit = bytes - tb'.tokens in
    let ms = u64 (u64 (u64 (deficit * 1000) + tb.rate_bps) + 2 ^ 64 - 1) / tb.rate_bps in
    if tb.rate_bps == 0
    then (0, tb)
    else if leb bytes tb'.tokens
    then (0, tb')
    else (if ltb u32_max ms then u32_max else ms, tb')

-- `sl_token_bucket_set_rate`
unfoldable pub set_rate : ℕ → TokenBucket → ℕ → TokenBucket
set_rate now tb rate_bps = record (refill now tb) { rate_bps = rate_bps }
