-- ===== src/Session/Manager/Sweeps.antt =====
-- A sweep over the table of sessions, in which no identifier stands twice.
use securelink.Common.{
  ℕ, ◌+◌, ◌≡◌, refl, ap, ◌∙◌, Bool, true, false, Option, none, some, List, [], ◌∷◌, if◌then◌else◌,
  arith, length, ◌==◌, not, ◌&&◌, Bool-cases, inl, inr,
}
use securelink.Common.Sequences.{run}
use securelink.Common.Assoc.{lookup, insert, erase, num_eq}
use securelink.Session.Manager.{
  Session, SessionManagerConfig, SessionManager, new, register_session, record_traffic,
  note_rekey_local, note_rekey_peer, close_session, is_idle, sweep_loop, sweep,
}

pub data Call : Type 0 where
  registered : List ℕ → List ℕ → ℕ → Call
  carried : ℕ → ℕ → ℕ → ℕ → Call
  rekeyed_here rekeyed_there was_closed swept : ℕ → Call

unfoldable pub on_call : SessionManager → Call → SessionManager
on_call m (registered label identity now) = (register_session m label identity now).0
on_call m (carried id out back now) = (record_traffic m id out back now).0
on_call m (rekeyed_here id) = note_rekey_local m id
on_call m (rekeyed_there id) = note_rekey_peer m id
on_call m (was_closed id) = close_session m id
on_call m (swept now) = (sweep m now).0

has_key : ℕ → List (ℕ × Session) → Bool
has_key k [] = false
has_key k ((j, s) ∷ m) = if j == k then true else has_key k m

-- No identifier twice.
pub is_unique : List (ℕ × Session) → Bool
unfolding has_key
is_unique [] = true
is_unique ((k, s) ∷ m) = not (has_key k m) && is_unique m

has_key-insert :
    (k j : ℕ) (s : Session) (m : List (ℕ × Session))
    → has_key j (insert k s m) ≡ (if k == j then true else has_key j m)
unfolding has_key
has_key-insert k j s [] = refl
has_key-insert k j s ((i, t) ∷ m) = ground (arith, has_key-insert k j s m)

unique-insert :
    (k : ℕ) (s : Session) (m : List (ℕ × Session))
    → is_unique m ≡ true
    → is_unique (insert k s m) ≡ true
unfolding is_unique
unique-insert k s [] u = refl
unique-insert k s ((i, t) ∷ m) u = elim (Bool-cases (i == k)) [
  | inl e ↦ let same : i ≡ k = ground arith in let keys = ap (λ n. has_key n m) same in ground arith
  | inr e ↦ ground (arith, has_key-insert k i s m, unique-insert k s m)
]

has_key-erase :
    (k j : ℕ) (m : List (ℕ × Session))
    → has_key j (erase k m) ≡ (if k == j then false else has_key j m)
unfolding has_key
has_key-erase k j [] = ground arith
has_key-erase k j ((i, t) ∷ m) = ground (arith, has_key-erase k j m)

unique-erase : (k : ℕ) (m : List (ℕ × Session)) → is_unique m ≡ true → is_unique (erase k m) ≡ true
unfolding is_unique
unique-erase k [] u = refl
unique-erase k ((i, t) ∷ m) u = ground (arith, has_key-erase k i m, unique-erase k m)

has_key-sweep_loop :
    (cfg : SessionManagerConfig) (now k : ℕ) (m : List (ℕ × Session))
    → has_key k m ≡ false
    → has_key k (sweep_loop cfg now m).0 ≡ false
unfolding has_key sweep_loop
has_key-sweep_loop cfg now k [] h = refl
has_key-sweep_loop cfg now k ((i, t) ∷ m) h = ground (arith, has_key-sweep_loop cfg now k m)

unique-sweep_loop :
    (cfg : SessionManagerConfig) (now : ℕ) (m : List (ℕ × Session))
    → is_unique m ≡ true
    → is_unique (sweep_loop cfg now m).0 ≡ true
unfolding is_unique sweep_loop
unique-sweep_loop cfg now [] u = refl
unique-sweep_loop cfg now ((i, t) ∷ m) u =
    ground (arith, has_key-sweep_loop cfg now i m, unique-sweep_loop cfg now m)

lookup-no_key : (k : ℕ) (m : List (ℕ × Session)) → has_key k m ≡ false → lookup k m ≡ none
unfolding has_key
lookup-no_key k [] h = refl
lookup-no_key k ((i, t) ∷ m) h = ground (arith, lookup-no_key k m)

-- A session, unless `sweep` takes it out.
unfoldable pub unless_idle : SessionManagerConfig → ℕ → Option Session → Option Session
unless_idle cfg now none = none
unless_idle cfg now (some s) = if is_idle cfg now s then none else some s

pub lookup-sweep_loop :
    (cfg : SessionManagerConfig) (now k : ℕ) (m : List (ℕ × Session))
    → is_unique m ≡ true
    → lookup k (sweep_loop cfg now m).0 ≡ unless_idle cfg now (lookup k m)
unfolding is_unique sweep_loop unless_idle
lookup-sweep_loop cfg now k [] u = refl
lookup-sweep_loop cfg now k ((i, t) ∷ m) u = elim (Bool-cases (i == k)) [
  | inl e ↦
      let same : i ≡ k = ground arith in
      let keys = ap (λ n. has_key n m) same in
      ground (arith, has_key-sweep_loop cfg now k m, lookup-no_key k (sweep_loop cfg now m).0)
  | inr e ↦ ground (arith, lookup-sweep_loop cfg now k m)
]

pub removed-sweep_loop :
    (cfg : SessionManagerConfig) (now : ℕ) (m : List (ℕ × Session))
    → length (sweep_loop cfg now m).0 + (sweep_loop cfg now m).1 ≡ length m
unfolding sweep_loop
removed-sweep_loop cfg now [] = omega arith
removed-sweep_loop cfg now ((i, t) ∷ m) = ground (arith, removed-sweep_loop cfg now m)

pub unique-on_call :
    (m : SessionManager) (c : Call)
    → is_unique m.sessions ≡ true
    → (is_unique (on_call m c).sessions ≡ true) × ((on_call m c).cfg ≡ m.cfg)
unfolding on_call register_session record_traffic note_rekey_local note_rekey_peer close_session
    sweep
unique-on_call m (registered label identity now) u = grind (arith, unique-insert)
unique-on_call m (carried id out back now) u = grind (arith, unique-insert)
unique-on_call m (rekeyed_here id) u = grind (arith, unique-insert)
unique-on_call m (rekeyed_there id) u = grind (arith, unique-insert)
unique-on_call m (was_closed id) u = (unique-erase id m.sessions u, refl)
unique-on_call m (swept now) u = (unique-sweep_loop m.cfg now m.sessions u, refl)

pub new_unique : (cfg : SessionManagerConfig) → is_unique (new cfg).sessions ≡ true
unfolding is_unique
new_unique cfg = refl

pub run_unique :
    (cs : List Call) (m : SessionManager)
    → is_unique m.sessions ≡ true
    → (is_unique (run on_call m cs).sessions ≡ true) × ((run on_call m cs).cfg ≡ m.cfg)
run_unique [] m u = (u, refl)
run_unique (c ∷ cs) m u =
    let (unique, cfg) = unique-on_call m c u in
    let rest = run_unique cs (on_call m c) unique in (rest.0, rest.1 ∙ cfg)
