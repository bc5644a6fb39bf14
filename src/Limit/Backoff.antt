-- ===== src/Limit/Backoff.antt =====
-- src/sl_backoff.c: the delays between attempts to connect. `random` is what `sl_rng_uniform` gives
-- for the range (`none`: it failed).
pub mod Range
use securelink.Common.{
  ℕ, ◌+◌, ◌-◌, ◌*◌, ◌^◌, ◌||◌, Option, none, some, ltb, leb, ◌==◌, if◌then◌else◌, Outcome, ok,
  ◌>>=◌, ◌>>◌, reject_if,
}
use securelink.Bytes.{u32, u64}

pub record Backoff : Type 0 where
  pub base_ms : ℕ
  pub cap_ms : ℕ
  pub last_ms : ℕ
  pub attempt : ℕ

-- `sl_backoff_init`
unfoldable pub init : ℕ → ℕ → Outcome Backoff
init base_ms cap_ms = do
  reject_if (base_ms == 0 || ltb cap_ms base_ms)
  ok (record { base_ms = base_ms; cap_ms = cap_ms; last_ms = base_ms; attempt = 0 })

-- `sl_backoff_reset`
unfoldable pub reset : Backoff → Backoff
reset b = record b { last_ms = b.base_ms; attempt = 0 }

-- `sl_backoff_attempt`
unfoldable pub attempts : Backoff → ℕ
attempts b = b.attempt

-- `upper`: three times the last delay, within the cap, and above the base. `base_ms + 1` wraps as
-- `uint32_t`.
unfoldable pub upper : Backoff → ℕ
upper b =
    let tripled = u64 (b.last_ms * 3) in
    let capped = if ltb b.cap_ms tripled then b.cap_ms else tripled in
    if leb capped b.base_ms then u32 (b.base_ms + 1) else capped

-- `span`, a `uint64_t` difference
unfoldable pub range : Backoff → ℕ
range b = u64 (upper b + 2 ^ 64 - b.base_ms)

-- `r`, which stays 0 where the generator fails
unfoldable pub drawn : Option ℕ → ℕ
drawn none = 0
drawn (some r) = r

-- `sl_backoff_next`
unfoldable pub next_delay : Option ℕ → Backoff → ℕ × Backoff
next_delay random b =
    let delay = u32 (b.base_ms + u32 (drawn random)) in
    (delay, record b { last_ms = delay; attempt = u32 (b.attempt + 1) })
