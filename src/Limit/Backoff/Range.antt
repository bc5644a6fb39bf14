-- ===== src/Limit/Backoff/Range.antt =====
-- How long src/sl_backoff.c waits.
use securelink.Common.{
  ℕ, ◌+◌, ◌-◌, ◌*◌, ◌^◌, ◌≤◌, ◌<◌, min, max, ◌≡◌, ◌⊎◌, Option, none, some, List, [], ◌∷◌, arith,
  All, ok,
}
use securelink.Limit.Backoff.{Backoff, init, upper, range, drawn, next_delay}

-- What a number below the range is
abbrev pub InRange : Option ℕ → Backoff → Type 0
InRange none b = Unit
InRange (some r) b = r < range b

-- `sl_rng_uniform` keeps to the range that each call asks for.
abbrev pub AllInRange : List (Option ℕ) → Backoff → Type 0
AllInRange [] b = Unit
AllInRange (r ∷ rs) b = InRange r b × AllInRange rs (next_delay r b).1

-- The delays of a row of attempts
unfoldable pub delays : List (Option ℕ) → Backoff → List ℕ
delays [] b = []
delays (r ∷ rs) b = let (d, b') = next_delay r b in d ∷ delays rs b'

pub record IsValid (b : Backoff) : Type 0 where
  pub base_in : b.base_ms ≤ b.cap_ms
  pub cap_in : b.cap_ms < 2 ^ 32 - 1
  pub last_low : b.base_ms ≤ b.last_ms
  pub last_in : b.last_ms ≤ b.cap_ms

range_lem :
    (b : Backoff)
    → IsValid b
    → (0 < range b) × (b.base_ms + range b ≤ max (b.base_ms + 1) (min b.cap_ms (3 * b.last_ms)))
unfolding range upper
range_lem b v = ground (arith, v)

next_delay_lem :
    (random : Option ℕ) (b : Backoff)
    → IsValid b
    → InRange random b
    → let (d, b') = next_delay random b in
      (b.base_ms ≤ d)
      × (d ≤ b.cap_ms)
      × ((d ≡ b.base_ms) ⊎ (d < 3 * b.last_ms))
      × IsValid b'
      × (b'.base_ms ≡ b.base_ms)
      × (b'.cap_ms ≡ b.cap_ms)
unfolding next_delay drawn
next_delay_lem none b v h = ground (arith, v)
next_delay_lem (some r) b v h = ground (arith, v, range_lem b v)

delays_lem :
    (rs : List (Option ℕ)) (b : Backoff)
    → IsValid b
    → AllInRange rs b
    → All (λ d. (b.base_ms ≤ d) × (d ≤ b.cap_ms)) (delays rs b)
unfolding delays next_delay
delays_lem [] b v h = tt
delays_lem (r ∷ rs) b v h =
    let (low, high, _, v', base, cap_same) = next_delay_lem r b v h.0 in
    ((low, high), delays_lem rs (next_delay r b).1 v' h.1)

-- From `sl_backoff_init` on, with a cap below 2 ^ 32 - 1 and a generator that keeps to the range asked
-- for or fails, each delay of `sl_backoff_next` is between the base and the cap.
pub delays_in_range :
    (base_ms cap_ms : ℕ) (b : Backoff) (rs : List (Option ℕ))
    → init base_ms cap_ms ≡ ok b
    → cap_ms < 2 ^ 32 - 1
    → AllInRange rs b
    → All (λ d. (base_ms ≤ d) × (d ≤ cap_ms)) (delays rs b)
unfolding init
delays_in_range base_ms cap_ms b rs e small h =
    let (is_base, is_cap, last, le) = started e in
    rw (← is_base, ← is_cap)
      (delays_lem rs b
        (record {
          base_in = omega arith;
          cap_in = omega arith;
          last_low = omega arith;
          last_in = omega arith;
        })
        h)
  where
    started :
        init base_ms cap_ms ≡ ok b
        → (b.base_ms ≡ base_ms) × (b.cap_ms ≡ cap_ms) × (b.last_ms ≡ base_ms) × (base_ms ≤ cap_ms)
    started e = ground arith
