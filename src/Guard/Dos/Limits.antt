-- ===== src/Guard/Dos/Limits.antt =====
-- What src/sl_dos_guard.c promises of any course of events.
use securelink.Common.{
  ℕ, ◌+◌, ◌^◌, ◌≤◌, ◌<◌, ◌≡◌, refl, ◌∙◌, inl, inr, Bool, true, Option, none, some, List, [], ◌∷◌,
  arith, Option-cases,
}
use securelink.Guard.Table.{Key, empty, find}
use securelink.Guard.Table.Find.{length-empty}
use securelink.Guard.Table.Total.{total, total-empty, Every-empty}
use securelink.Guard.Dos.{
  IpEntry, DosGuard, find_or_create, new, admit_entry, admit, promote_entry, promote, release_entry,
  release, sweep, global_inflight, per_ip,
}
use securelink.Guard.Dos.Inv.{
  half, est, Within, IsValid, entry_in, admit-IsValid, promote-IsValid, release-IsValid,
}
use securelink.Guard.Dos.Sweeps.{sweep_lem}

pub data Op : Type 0 where
  accept : ℕ → Bool → Key → Op
  established : Key → Op
  closed : Key → Op
  tick : ℕ → Op

unfoldable pub step : DosGuard → Op → DosGuard
step g (accept now alloc ip) = (admit now alloc g ip).1
step g (established ip) = promote g ip
step g (closed ip) = release g ip
step g (tick now) = (sweep now g).1

unfoldable pub run : DosGuard → List Op → DosGuard
run g [] = g
run g (op ∷ ops) = run (step g op) ops

dos_step-IsValid : (g : DosGuard) (op : Op) → IsValid g → IsValid (step g op)
unfolding step
dos_step-IsValid g (accept now alloc ip) v = admit-IsValid now alloc g ip v
dos_step-IsValid g (established ip) v = promote-IsValid g ip v
dos_step-IsValid g (closed ip) v = release-IsValid g ip v
dos_step-IsValid g (tick now) v = (sweep_lem now g v).4

pub dos_run-IsValid : (ops : List Op) (g : DosGuard) → IsValid g → IsValid (run g ops)
unfolding run
dos_run-IsValid [] g v = v
dos_run-IsValid (op ∷ ops) g v = dos_run-IsValid ops (step g op) (dos_step-IsValid g op v)

pub dos_new-IsValid :
    (max_per_ip max_global timeout : ℕ) (g : DosGuard)
    → new true max_per_ip max_global timeout ≡ some g
    → max_global < 2 ^ 32
    → max_per_ip < 2 ^ 32
    → IsValid g × (g.max_global ≡ max_global) × (g.max_per_ip ≡ max_per_ip)
unfolding new
dos_new-IsValid max_per_ip max_global timeout g h small per_ip_small =
    let state : g ≡ record {
      max_per_ip = max_per_ip;
      max_global = max_global;
      half_open_timeout_ms = timeout;
      global_half_open = 0;
      global_established = 0;
      buckets = empty IpEntry;
    } =
      ground arith in
    rw state (
      record {
        full = length-empty IpEntry;
        half_sum = total-empty half;
        est_sum = total-empty est;
        global_in = omega arith;
        global_small = small;
        per_ip_small = per_ip_small;
        within = Every-empty (Within max_per_ip);
      },
      refl,
      refl,
    )

admit_keeps :
    (now : ℕ) (alloc : Bool) (g : DosGuard) (ip : Key)
    → ((admit now alloc g ip).1.max_global ≡ g.max_global)
      × ((admit now alloc g ip).1.max_per_ip ≡ g.max_per_ip)
unfolding admit admit_entry find_or_create
admit_keeps now alloc g ip = ground arith

promote_keeps :
    (g : DosGuard) (ip : Key) (found : Option IpEntry)
    → ((promote_entry ip g found).max_global ≡ g.max_global)
      × ((promote_entry ip g found).max_per_ip ≡ g.max_per_ip)
unfolding promote_entry
promote_keeps g ip none = (refl, refl)
promote_keeps g ip (some e) = ground arith

release_keeps :
    (g : DosGuard) (ip : Key) (found : Option IpEntry)
    → ((release_entry ip g found).max_global ≡ g.max_global)
      × ((release_entry ip g found).max_per_ip ≡ g.max_per_ip)
unfolding release_entry
release_keeps g ip none = (refl, refl)
release_keeps g ip (some e) = ground arith

step_keeps :
    (g : DosGuard) (op : Op)
    → ((step g op).max_global ≡ g.max_global) × ((step g op).max_per_ip ≡ g.max_per_ip)
unfolding step promote release sweep
step_keeps g (accept now alloc ip) = admit_keeps now alloc g ip
step_keeps g (established ip) = promote_keeps g ip (find g.buckets ip)
step_keeps g (closed ip) = release_keeps g ip (find g.buckets ip)
step_keeps g (tick now) = (refl, refl)

run_keeps :
    (ops : List Op) (g : DosGuard)
    → ((run g ops).max_global ≡ g.max_global) × ((run g ops).max_per_ip ≡ g.max_per_ip)
unfolding run
run_keeps [] g = (refl, refl)
run_keeps (op ∷ ops) g =
    let (a, b) = step_keeps g op in let (c, d) = run_keeps ops (step g op) in (c ∙ a, d ∙ b)

per_ip-le : (g : DosGuard) (ip : Key) → IsValid g → per_ip g ip ≤ g.max_per_ip
unfolding per_ip
per_ip-le g ip v = elim (Option-cases (find g.buckets ip)) [
  | inl missing ↦ rw (per_ip, missing) (omega arith)
  | inr (e, there) ↦
      let (lh, le, lw) = entry_in g ip e v there in
      let small = v.per_ip_small in rw (per_ip, there) (omega arith)
]

-- After any operations on a new guard, whose limits fit 32 bits: the connections of any peer and
-- those of all peers together are within their limits, and the global count is the sum of the
-- peers' counts.
pub limits_hold :
    (max_per_ip max_global timeout : ℕ) (g : DosGuard) (ops : List Op) (ip : Key)
    → new true max_per_ip max_global timeout ≡ some g
    → max_global < 2 ^ 32
    → max_per_ip < 2 ^ 32
    → (per_ip (run g ops) ip ≤ max_per_ip)
      × (global_inflight (run g ops) ≤ max_global)
      × (global_inflight (run g ops)
          ≡ total half (run g ops).buckets + total est (run g ops).buckets)
unfolding global_inflight
limits_hold max_per_ip max_global timeout g ops ip h small per_ip_small =
    let (v, mg, mp) = dos_new-IsValid max_per_ip max_global timeout g h small per_ip_small in
    let w = dos_run-IsValid ops g v in
    let (mg', mp') = run_keeps ops g in
    let limit = w.global_in in
    let low = w.global_small in
    (
      omega (arith, per_ip-le (run g ops) ip w, mp', mp),
      omega (arith, mg', mg),
      omega (arith, w.half_sum, w.est_sum, mg', mg),
    )
