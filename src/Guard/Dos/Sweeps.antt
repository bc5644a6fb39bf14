-- ===== src/Guard/Dos/Sweeps.antt =====
-- `sl_dos_guard_sweep` of src/sl_dos_guard.c.
use securelink.Common.{
  ℕ, ◌+◌, ◌-◌, ◌^◌, ◌≤◌, ◌<◌, ◌≡◌, refl, ◌∙◌, [], ◌∷◌, arith, ltb, if◌then◌else◌, length,
}
use securelink.Bytes.{u64}
use securelink.Guard.Table.{Chain, Table}
use securelink.Guard.Table.Total.{chain_total, total, ChainEvery, Every}
use securelink.Guard.Dos.{IpEntry, DosGuard, Sweep, sweep_entry, sweep_chain, sweep_buckets, sweep}
use securelink.Guard.Dos.Inv.{half, est, Within, IsValid}

-- The half-open connections of an entry that the sweep at `now` has to give up
unfoldable pub stale : ℕ → ℕ → IpEntry → ℕ
stale now timeout e =
    if ltb timeout (u64 (now + 2 ^ 64 - e.oldest_half_open_ms)) then e.half_open else 0

-- What one step of the sweep does, where the global count covers the entry.
sweep_entry_lem :
    (now timeout : ℕ) (e : IpEntry) (s : Sweep)
    → e.half_open ≤ s.global_left
    → s.reaped + e.half_open < 2 ^ 64
    → let (e', s') = sweep_entry now timeout e s in
      (s'.global_left + e.half_open ≡ s.global_left + e'.half_open)
      × (s'.reaped ≡ s.reaped + stale now timeout e)
      × (e.half_open ≡ e'.half_open + stale now timeout e)
      × (e'.established ≡ e.established)
      × (stale now timeout e' ≡ 0)
unfolding sweep_entry stale
sweep_entry_lem now timeout e s h r = ground arith

sweep_chain_lem :
    (now timeout : ℕ) (es : Chain IpEntry) (s : Sweep)
    → chain_total half es ≤ s.global_left
    → s.reaped + chain_total half es < 2 ^ 64
    → let (es', s') = sweep_chain now timeout es s in
      (s'.global_left + chain_total half es ≡ s.global_left + chain_total half es')
      × (s'.reaped ≡ s.reaped + chain_total (stale now timeout) es)
      × (chain_total half es ≡ chain_total half es' + chain_total (stale now timeout) es)
      × (chain_total est es' ≡ chain_total est es)
      × (chain_total (stale now timeout) es' ≡ 0)
unfolding sweep_chain chain_total
sweep_chain_lem now timeout [] s h r = ground arith
sweep_chain_lem now timeout ((k, e) ∷ es) s h r =
    let first = sweep_entry_lem now timeout e s (omega arith) (omega arith) in
    let rest =
      sweep_chain_lem now timeout es (sweep_entry now timeout e s).1 (omega (arith, first))
        (omega (arith, first)) in
    ground (arith, first, rest)

ChainEvery-sweep :
    (now timeout m : ℕ) (es : Chain IpEntry) (s : Sweep)
    → ChainEvery (Within m) es
    → ChainEvery (Within m) (sweep_chain now timeout es s).0
unfolding sweep_chain sweep_entry
ChainEvery-sweep now timeout m [] s h = tt
ChainEvery-sweep now timeout m ((k, e) ∷ es) s h =
    (ground arith, ChainEvery-sweep now timeout m es (sweep_entry now timeout e s).1 h.1)

sweep_buckets_lem :
    (now timeout m : ℕ) (t : Table IpEntry) (s : Sweep)
    → total half t ≤ s.global_left
    → s.reaped + total half t < 2 ^ 64
    → let (t', s') = sweep_buckets now timeout t s in
      (s'.global_left + total half t ≡ s.global_left + total half t')
      × (s'.reaped ≡ s.reaped + total (stale now timeout) t)
      × (total half t ≡ total half t' + total (stale now timeout) t)
      × (total est t' ≡ total est t)
      × (total (stale now timeout) t' ≡ 0)
      × (length t' ≡ length t)
unfolding sweep_buckets total
sweep_buckets_lem now timeout m [] s h r = ground arith
sweep_buckets_lem now timeout m (es ∷ t) s h r =
    let first = sweep_chain_lem now timeout es s (omega arith) (omega arith) in
    let rest =
      sweep_buckets_lem now timeout m t (sweep_chain now timeout es s).1 (omega (arith, first))
        (omega (arith, first)) in
    ground (arith, first, rest)

Every-sweep :
    (now timeout m : ℕ) (t : Table IpEntry) (s : Sweep)
    → Every (Within m) t
    → Every (Within m) (sweep_buckets now timeout t s).0
unfolding sweep_buckets
Every-sweep now timeout m [] s h = tt
Every-sweep now timeout m (es ∷ t) s h = (
  ChainEvery-sweep now timeout m es s h.0,
  Every-sweep now timeout m t (sweep_chain now timeout es s).1 h.1,
)

-- From a valid guard, `sl_dos_guard_sweep` gives up exactly the half-open connections of the peers
-- whose oldest one is too old, counts them, takes them off the global count, leaves no such peer and
-- keeps the established connections; and the guard stays valid.
pub sweep_lem :
    (now : ℕ) (g : DosGuard)
    → IsValid g
    → let (reaped, g') = sweep now g in
      (reaped ≡ total (stale now g.half_open_timeout_ms) g.buckets)
      × (g'.global_half_open + reaped ≡ g.global_half_open)
      × (g'.global_established ≡ g.global_established)
      × (total (stale now g.half_open_timeout_ms) g'.buckets ≡ 0)
      × IsValid g'
unfolding sweep
sweep_lem now g v =
    let small = v.global_small in
    let limit = v.global_in in
    let start : Sweep = record { global_left = g.global_half_open; reaped = 0 } in
    let swept =
      sweep_buckets_lem now g.half_open_timeout_ms g.max_per_ip g.buckets start
        (omega (arith, v.half_sum)) (omega (arith, v.half_sum)) in
    (
      omega (arith, swept),
      omega (arith, swept, v.half_sum),
      refl,
      swept.4,
      record {
        full = swept.5 ∙ v.full;
        half_sum = omega (arith, swept, v.half_sum);
        est_sum = swept.3 ∙ v.est_sum;
        global_in = omega (arith, swept, v.half_sum);
        global_small = v.global_small;
        per_ip_small = v.per_ip_small;
        within = Every-sweep now g.half_open_timeout_ms g.max_per_ip g.buckets start v.within;
      },
    )
