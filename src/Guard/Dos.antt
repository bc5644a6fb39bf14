-- ===== src/Guard/Dos.antt =====
-- src/sl_dos_guard.c: how many connections a peer, and all of them, may have. `now` is what the
-- monotonic clock says where the function asks for it, `alloc` whether the allocator has memory.
pub mod Inv
pub mod Limits
pub mod Sweeps
use securelink.Common.{
  ℕ, ◌+◌, ◌-◌, ◌^◌, Bool, true, false, not, ◌&&◌, ◌||◌, Option, none, some, [], ◌∷◌, ltb, leb, ◌==◌,
  if◌then◌else◌,
}
use securelink.Bytes.{u32, u64}
use securelink.Guard.Table.{Key, Chain, Table, empty, find, put, insert}

pub record IpEntry : Type 0 where
  pub half_open : ℕ
  pub established : ℕ
  pub oldest_half_open_ms : ℕ

pub record DosGuard : Type 0 where
  pub max_per_ip : ℕ
  pub max_global : ℕ
  pub half_open_timeout_ms : ℕ
  pub global_half_open : ℕ
  pub global_established : ℕ
  pub buckets : Table IpEntry

-- What `calloc` makes of an entry
abbrev pub cleared : IpEntry
cleared = record { half_open = 0; established = 0; oldest_half_open_ms = 0 }

-- `++` and `--` on `uint32_t`
abbrev pub incr : ℕ → ℕ
incr x = u32 (x + 1)

abbrev pub decr : ℕ → ℕ
decr x = u32 (x + 2 ^ 32 - 1)

-- `find_or_create`
unfoldable pub find_or_create : Bool → DosGuard → Key → Bool → Option IpEntry × DosGuard
find_or_create alloc g ip create = elim (find g.buckets ip) [
  | some e ↦ (some e, g)
  | none ↦
      if create && alloc
      then (some cleared, record g { buckets = insert g.buckets ip cleared })
      else (none, g)
]

-- `sl_dos_guard_new`
unfoldable pub new : Bool → ℕ → ℕ → ℕ → Option DosGuard
new alloc max_per_ip max_global half_open_timeout_ms =
    if (max_per_ip == 0) || (max_global == 0) || (half_open_timeout_ms == 0)
    then none
    else if not alloc
    then none
    else some (record {
      max_per_ip = max_per_ip;
      max_global = max_global;
      half_open_timeout_ms = half_open_timeout_ms;
      global_half_open = 0;
      global_established = 0;
      buckets = empty IpEntry;
    })

-- The rest of `sl_dos_guard_admit`, with what `find_or_create` gave
unfoldable pub admit_entry : ℕ → Key → Option IpEntry × DosGuard → Bool × DosGuard
admit_entry now ip (none, g) = (false, g)
admit_entry now ip (some e, g) =
    if leb g.max_per_ip (u32 (e.half_open + e.established)) then (false, g) else (
      true,
      record g {
        global_half_open = incr g.global_half_open;
        buckets = put g.buckets ip (record e {
          half_open = incr e.half_open;
          oldest_half_open_ms = if e.half_open == 0 then now else e.oldest_half_open_ms;
        });
      },
    )

-- `sl_dos_guard_admit`
unfoldable pub admit : ℕ → Bool → DosGuard → Key → Bool × DosGuard
admit now alloc g ip =
    if leb g.max_global (u32 (g.global_half_open + g.global_established))
    then (false, g)
    else admit_entry now ip (find_or_create alloc g ip true)

-- The rest of `sl_dos_guard_promote`
unfoldable pub promote_entry : Key → DosGuard → Option IpEntry → DosGuard
promote_entry ip g none = g
promote_entry ip g (some e) = if e.half_open == 0 then g else record g {
  global_half_open = decr g.global_half_open;
  global_established = incr g.global_established;
  buckets =
      put g.buckets ip (record e { half_open = e.half_open - 1; established = incr e.established });
}

-- `sl_dos_guard_promote`
unfoldable pub promote : DosGuard → Key → DosGuard
promote g ip = promote_entry ip g (find g.buckets ip)

-- The rest of `sl_dos_guard_release`
unfoldable pub release_entry : Key → DosGuard → Option IpEntry → DosGuard
release_entry ip g none = g
release_entry ip g (some e) =
    if ltb 0 e.established
    then record g {
      global_established = decr g.global_established;
      buckets = put g.buckets ip (record e { established = e.established - 1 });
    }
    else if ltb 0 e.half_open
    then record g {
      global_half_open = decr g.global_half_open;
      buckets = put g.buckets ip (record e { half_open = e.half_open - 1 });
    }
    else g

-- `sl_dos_guard_release`
unfoldable pub release : DosGuard → Key → DosGuard
release g ip = release_entry ip g (find g.buckets ip)

-- What the loops of `sl_dos_guard_sweep` carry
pub record Sweep : Type 0 where
  pub global_left : ℕ
  pub reaped : ℕ

-- The body of the loops; the age wraps as `uint64_t`.
unfoldable pub sweep_entry : ℕ → ℕ → IpEntry → Sweep → IpEntry × Sweep
sweep_entry cutoff timeout e s =
    if e.half_open == 0
    then (e, s)
    else if ltb timeout (u64 (cutoff + 2 ^ 64 - e.oldest_half_open_ms))
    then (
      record e { half_open = 0 },
      record {
        global_left = if ltb s.global_left e.half_open then 0 else s.global_left - e.half_open;
        reaped = u64 (s.reaped + e.half_open);
      },
    )
    else (e, s)

unfoldable pub sweep_chain : ℕ → ℕ → Chain IpEntry → Sweep → Chain IpEntry × Sweep
sweep_chain cutoff timeout [] s = ([], s)
sweep_chain cutoff timeout ((k, e) ∷ es) s =
    let (e', s') = sweep_entry cutoff timeout e s in
    let (es', s'') = sweep_chain cutoff timeout es s' in ((k, e') ∷ es', s'')

unfoldable pub sweep_buckets : ℕ → ℕ → Table IpEntry → Sweep → Table IpEntry × Sweep
sweep_buckets cutoff timeout [] s = ([], s)
sweep_buckets cutoff timeout (es ∷ t) s =
    let (es', s') = sweep_chain cutoff timeout es s in
    let (t', s'') = sweep_buckets cutoff timeout t s' in (es' ∷ t', s'')

-- `sl_dos_guard_sweep`: the connections that it gave up, and the guard afterwards
unfoldable pub sweep : ℕ → DosGuard → ℕ × DosGuard
sweep now g =
    let (t, s) =
      sweep_buckets now g.half_open_timeout_ms g.buckets
        (record { global_left = g.global_half_open; reaped = 0 }) in
    (s.reaped, record g { global_half_open = s.global_left; buckets = t })

-- `sl_dos_guard_global_inflight`
unfoldable pub global_inflight : DosGuard → ℕ
global_inflight g = u32 (g.global_half_open + g.global_established)

-- `sl_dos_guard_per_ip`
unfoldable pub per_ip : DosGuard → Key → ℕ
per_ip g ip = elim (find g.buckets ip) [ none ↦ 0 | some e ↦ u32 (e.half_open + e.established) ]
