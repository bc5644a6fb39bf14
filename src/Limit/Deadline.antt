-- ===== src/Limit/Deadline.antt =====
-- src/sl_deadline.c: points in time to wait for. `now` is what `sl_deadline_now_ms` gives.
use securelink.Common.{ℕ, ◌+◌, ◌-◌, ◌^◌, ◌≤◌, ◌<◌, ◌≡◌, Bool, arith, ltb, leb, if◌then◌else◌}
use securelink.Bytes.{u64}

abbrev pub u32_max : ℕ
u32_max = 2 ^ 32 - 1

-- `sl_deadline_in_ms`
unfoldable pub deadline_in_ms : ℕ → ℕ → ℕ
deadline_in_ms now timeout_ms = u64 (now + timeout_ms)

-- `sl_deadline_expired`
unfoldable pub deadline_expired : ℕ → ℕ → Bool
deadline_expired now deadline_ms = leb deadline_ms now

-- `sl_deadline_remaining_ms`
unfoldable pub deadline_remaining_ms : ℕ → ℕ → ℕ
deadline_remaining_ms now deadline_ms =
    let r = deadline_ms - now in
    if leb deadline_ms now then 0 else if ltb u32_max r then u32_max else r

-- A deadline set `timeout_ms` from `start` on, on a clock that does not wrap or run back, has expired
-- just when the timeout has passed, and the time that remains before is what is missing of it.
pub deadline_lem :
    (start timeout_ms now : ℕ)
    → start + timeout_ms < 2 ^ 64
    → timeout_ms < 2 ^ 32
    → start ≤ now
    → let d = deadline_in_ms start timeout_ms in
      (deadline_expired now d ≡ leb timeout_ms (now - start))
      × (deadline_remaining_ms now d ≡ timeout_ms - (now - start))
unfolding deadline_in_ms deadline_expired deadline_remaining_ms
deadline_lem start timeout_ms now h0 h1 h2 = (ground arith, ground arith)
