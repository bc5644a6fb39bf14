-- ===== src/Session/Manager/Activity.antt =====
-- When a session was last seen, by the calls of the past, and which sessions a sweep leaves.
use securelink.Common.{
  ℕ, ◌+◌, ◌-◌, ◌*◌, ◌^◌, ◌≡◌, refl, ap, ◌∙◌, Bool, true, false, Option, none, some, List, [], ◌∷◌,
  if◌then◌else◌, arith, ltb, ◌==◌, Bool-cases, inl, inr,
}
use securelink.Common.Sequences.{run}
use securelink.Common.Assoc.{lookup, num_eq, lookup-insert, lookup-erase}
use securelink.Bytes.{u64}
use securelink.Session.Manager.{
  Session, SessionManagerConfig, SessionManager, new, register_session, record_traffic,
  note_rekey_local, note_rekey_peer, close_session, snapshot, active_count, seconds_between,
  is_idle, sweep,
}
use securelink.Session.Manager.Sweeps.{
  new_unique, Call, registered, carried, rekeyed_here, rekeyed_there, was_closed, swept, on_call,
  is_unique, unless_idle, lookup-sweep_loop, removed-sweep_loop, unique-on_call, run_unique,
}

-- When there was last something of the session `k`: it was registered or it carried traffic. The
-- identifiers are given out in order from 1, with the wrap-around of 64 bits; a session under an
-- identifier that is still open stays as it is.
first_seen : ℕ → Option ℕ → Option ℕ
first_seen now none = some now
first_seen now (some t) = some t

seen_again : ℕ → Option ℕ → Option ℕ
seen_again now none = none
seen_again now (some t) = some now

-- A sweep at `now` leaves what was seen less than `timeout` seconds ago. The steady clock does not run
-- back, so that `now - t` is the time gone by, in nanoseconds.
pub is_recent : ℕ → ℕ → Option ℕ → Bool
is_recent timeout now none = false
is_recent timeout now (some t) = ltb (now - t) (timeout * 10 ^ 9)

-- One call, over the next identifier and the time at which `k` was last seen, if it is open.
unfoldable pub see : ℕ → ℕ → ℕ × Option ℕ → Call → ℕ × Option ℕ
unfolding first_seen seen_again is_recent
see timeout k (next, seen) (registered label identity now) =
    (u64 (next + 1), if next == k then first_seen now seen else seen)
see timeout k (next, seen) (carried id out back now) =
    (next, if id == k then seen_again now seen else seen)
see timeout k (next, seen) (rekeyed_here id) = (next, seen)
see timeout k (next, seen) (rekeyed_there id) = (next, seen)
see timeout k (next, seen) (was_closed id) = (next, if id == k then none else seen)
see timeout k (next, seen) (swept now) = (next, if is_recent timeout now seen then seen else none)

abbrev pub last_seen : ℕ → ℕ → List Call → Option ℕ
last_seen timeout k cs = (run (see timeout k) (1, none) cs).1

abbrev pub activity : Option Session → Option ℕ
activity none = none
activity (some s) = some s.last_activity

abbrev view : ℕ → SessionManager → ℕ × Option ℕ
view k m = (m.next_id, activity (lookup k m.sessions))

stays :
    (cfg : SessionManagerConfig) (now : ℕ) (found : Option Session)
    → unless_idle cfg now found
      ≡ (if is_recent cfg.idle_timeout_seconds now (activity found) then found else none)
unfolding unless_idle is_recent is_idle seconds_between
stays cfg now none = refl
stays cfg now (some s) = ground arith

activity_if :
    (c : Bool) (found : Option Session)
    → activity (if c then found else none) ≡ (if c then activity found else none)
activity_if true found = refl
activity_if false found = refl

same_key : (j k : ℕ) (m : List (ℕ × Session)) → j ≡ k → lookup j m ≡ lookup k m
same_key j k m e = ap (λ n. lookup n m) e

view-on_call :
    (k : ℕ) (m : SessionManager) (c : Call)
    → is_unique m.sessions ≡ true
    → view k (on_call m c) ≡ see m.cfg.idle_timeout_seconds k (view k m) c
unfolding on_call see register_session record_traffic note_rekey_local note_rekey_peer close_session
    sweep first_seen seen_again
view-on_call k m (registered label identity now) u = elim (Bool-cases (m.next_id == k)) [
  | inl e ↦ grind (arith, same_key m.next_id k m.sessions (ground arith), lookup-insert)
  | inr e ↦ grind (arith, e, lookup-insert)
]
view-on_call k m (carried id out back now) u = elim (Bool-cases (id == k)) [
  | inl e ↦ grind (arith, same_key id k m.sessions (ground arith), lookup-insert)
  | inr e ↦ grind (arith, e, lookup-insert)
]
view-on_call k m (rekeyed_here id) u = elim (Bool-cases (id == k)) [
  | inl e ↦ grind (arith, same_key id k m.sessions (ground arith), lookup-insert)
  | inr e ↦ grind (arith, e, lookup-insert)
]
view-on_call k m (rekeyed_there id) u = elim (Bool-cases (id == k)) [
  | inl e ↦ grind (arith, same_key id k m.sessions (ground arith), lookup-insert)
  | inr e ↦ grind (arith, e, lookup-insert)
]
view-on_call k m (was_closed id) u = ground (arith, lookup-erase id k m.sessions)
view-on_call k m (swept now) u =
    let left = lookup-sweep_loop m.cfg now k m.sessions u ∙ stays m.cfg now (lookup k m.sessions) in
    ap (λ o. (m.next_id, activity o)) left
    ∙ ap (λ o. (m.next_id, o))
        (activity_if (is_recent m.cfg.idle_timeout_seconds now (activity (lookup k m.sessions)))
          (lookup k m.sessions))

-- The state after the calls, seen from one session.
view-run :
    (cfg : SessionManagerConfig) (k : ℕ) (cs : List Call) (m : SessionManager)
    → m.cfg ≡ cfg
    → is_unique m.sessions ≡ true
    → view k (run on_call m cs) ≡ run (see cfg.idle_timeout_seconds k) (view k m) cs
view-run cfg k [] m e u = refl
view-run cfg k (c ∷ cs) m e u =
    let (unique, same) = unique-on_call m c u in
    view-run cfg k cs (on_call m c) (same ∙ e) unique
    ∙ ap (λ s. run (see cfg.idle_timeout_seconds k) s cs)
        (view-on_call k m c u ∙ ap (λ g. see g.idle_timeout_seconds k (view k m) c) e)

-- After any calls, on a clock that does not run back: a session is open exactly where the calls leave
-- it open, and its last activity is the time at which it was last seen: it was registered or carried
-- traffic. A sweep leaves it as it is if it was last seen less than the configured seconds ago, and
-- takes it out otherwise; it returns how many sessions it took out.
pub sweep-last_seen :
    (cfg : SessionManagerConfig) (cs : List Call) (now id : ℕ)
    → let m = run on_call (new cfg) cs in
      let seen = last_seen cfg.idle_timeout_seconds id cs in
      (activity (snapshot m id) ≡ seen)
      × (snapshot (sweep m now).0 id
          ≡ (if is_recent cfg.idle_timeout_seconds now seen then snapshot m id else none))
      × (active_count (sweep m now).0 + (sweep m now).1 ≡ active_count m)
unfolding snapshot active_count sweep
sweep-last_seen cfg cs now id =
    let m : SessionManager = run on_call (new cfg) cs in
    let (unique, same) = run_unique cs (new cfg) (new_unique cfg) in
    let seen : activity (lookup id m.sessions) ≡ last_seen cfg.idle_timeout_seconds id cs =
      ap (λ s. s.1) (view-run cfg id cs (new cfg) refl (new_unique cfg)) in
    (
      seen,
      lookup-sweep_loop m.cfg now id m.sessions unique
          ∙ ap (λ c. unless_idle c now (lookup id m.sessions)) same
          ∙ stays cfg now (lookup id m.sessions)
          ∙ ap
              (λ t. if is_recent cfg.idle_timeout_seconds now t then lookup id m.sessions else none)
              seen,
      removed-sweep_loop m.cfg now m.sessions,
    )
