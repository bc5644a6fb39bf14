-- ===== src/Tests/Guards.antt =====
-- Peers that come, fail and go.
use securelink.Common.{
  ◌+◌, ◌≤◌, ◌≡◌, refl, ap, true, none, some, List, [], ◌∷◌, arith, leb, if◌then◌else◌,
}
use securelink.Guard.Table.{Key, empty}
use securelink.Guard.Table.Find.{find-empty}
use securelink.Guard.Table.Total.{total}
use securelink.Guard.Lockout
use securelink.Guard.Lockout.{Lockout, Status, allow, blocked, fail_key, check}
use securelink.Guard.Lockout.Map.{entry_of, entry_of_lem}
use securelink.Guard.Lockout.Window.{Event, failure, success, report_all, streak, fail_key-streak}
use securelink.Guard.Dos
use securelink.Guard.Dos.{DosGuard, IpEntry, sweep, per_ip, global_inflight}
use securelink.Guard.Dos.Inv
use securelink.Guard.Dos.Inv.{half, est}
use securelink.Guard.Dos.Limits.{
  Op, accept, established, closed, tick, run, limits_hold, dos_new-IsValid, dos_run-IsValid,
}

abbrev alice : Key
alice = 97 ∷ []

abbrev bob : Key
bob = 98 ∷ []

abbrev fresh : Lockout
fresh = record {
  base_lockout_ms = 100;
  cap_lockout_ms = 1000;
  fail_threshold = 2;
  buckets = empty Lockout.Entry;
  count = 0;
}

fresh-new : Lockout.new true 100 1000 2 ≡ some fresh
unfolding Lockout.new
fresh-new = refl

abbrev reports : List Event
reports = failure 1 alice ∷ failure 2 bob ∷ success bob ∷ []

fail_key-streak_example :
    (fail_key 3 true (report_all fresh reports) alice).0
    ≡ (if leb 2 (streak alice 0 reports + 1) then blocked else allow)
fail_key-streak_example = fail_key-streak 100 1000 2 3 fresh reports alice fresh-new (omega arith)

abbrev strict : Lockout
strict = record fresh { fail_threshold = 1 }

strict_clear : (entry_of strict alice).fails ≡ 0
strict_clear =
    ap (λ (e : Lockout.Entry). e.fails)
      (entry_of_lem strict alice none (find-empty Lockout.Entry alice))

abbrev open_guard : DosGuard
open_guard = record {
  max_per_ip = 2;
  max_global = 3;
  half_open_timeout_ms = 1000;
  global_half_open = 0;
  global_established = 0;
  buckets = empty IpEntry;
}

open_guard-new : Dos.new true 2 3 1000 ≡ some open_guard
unfolding Dos.new
open_guard-new = refl

abbrev visits : List Op
visits = accept 5 true alice ∷ accept 6 true bob ∷ established alice ∷ closed alice ∷ tick 2000 ∷ []

limits_hold_example :
    (per_ip (run open_guard visits) alice ≤ 2)
    × (global_inflight (run open_guard visits) ≤ 3)
    × (global_inflight (run open_guard visits)
        ≡ total half (run open_guard visits).buckets + total est (run open_guard visits).buckets)
limits_hold_example =
    limits_hold 2 3 1000 open_guard visits alice open_guard-new (omega arith) (omega arith)

abbrev waiting : DosGuard
waiting = run open_guard (accept 5 true alice ∷ accept 6 true bob ∷ [])

waiting-IsValid : Inv.IsValid waiting
waiting-IsValid =
    dos_run-IsValid (accept 5 true alice ∷ accept 6 true bob ∷ []) open_guard
      (dos_new-IsValid 2 3 1000 open_guard open_guard-new (omega arith) (omega arith)).0
