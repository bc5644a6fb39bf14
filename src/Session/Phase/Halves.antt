-- ===== src/Session/Phase/Halves.antt =====
-- A stream is two halves, one for each direction, that open together and are shut on their own.
use securelink.Common.{ℕ, Bool, true, false, ◌&&◌, ◌≡◌, refl, ap, ◌∙◌, List, [], ◌∷◌, arith}
use securelink.Common.Sequences.{run}
use securelink.Session.Phase.{
  StreamPhase, idle, active, half_closed_local, half_closed_remote, closed, StreamState, new,
  open_stream, on_sent_fin, on_recv_fin, reset_stream, can_send, can_recv, is_closed,
}

pub data Event : Type 0 where
  opened : ℕ → Event
  sent_fin recv_fin : Event
  was_reset : List ℕ → Event

pub on_event : StreamState → Event → StreamState
on_event s (opened now) = (open_stream s now).0
on_event s sent_fin = (on_sent_fin s).0
on_event s recv_fin = (on_recv_fin s).0
on_event s (was_reset r) = reset_stream s r

pub data Half : Type 0 where
  unused usable shut : Half

pub record Halves : Type 0 where
  pub local : Half
  pub remote : Half

abbrev pub unused_halves : Halves
unused_halves = record { local = unused; remote = unused }

abbrev opens : Half → Half
opens unused = usable
opens h = h

abbrev shuts : Half → Half
shuts usable = shut
shuts h = h

-- What an event does to the halves.
pub half_event : Halves → Event → Halves
half_event h (opened now) = record { local = opens h.local; remote = opens h.remote }
half_event h sent_fin = record h { local = shuts h.local }
half_event h recv_fin = record h { remote = shuts h.remote }
half_event h (was_reset r) = record { local = shut; remote = shut }

abbrev pub is_usable : Half → Bool
is_usable usable = true
is_usable _ = false

abbrev pub is_shut : Half → Bool
is_shut shut = true
is_shut _ = false

abbrev halves_of : StreamPhase → Halves
halves_of idle = unused_halves
halves_of active = record { local = usable; remote = usable }
halves_of half_closed_local = record { local = shut; remote = usable }
halves_of half_closed_remote = record { local = usable; remote = shut }
halves_of closed = record { local = shut; remote = shut }

step_halves :
    (s : StreamState) (e : Event)
    → halves_of (on_event s e).phase ≡ half_event (halves_of s.phase) e
unfolding on_event half_event open_stream on_sent_fin on_recv_fin reset_stream
step_halves s (opened now) = ground arith
step_halves s sent_fin = ground arith
step_halves s recv_fin = ground arith
step_halves s (was_reset r) = ground arith

run_halves :
    (s : StreamState) (es : List Event)
    → halves_of (run on_event s es).phase ≡ run half_event (halves_of s.phase) es
run_halves s [] = refl
run_halves s (e ∷ es) =
    run_halves (on_event s e) es ∙ ap (λ h. run half_event h es) (step_halves s e)

-- Whatever happens to a new stream: it may send exactly while its local half is usable, may receive
-- exactly while its remote half is, and is closed exactly when both are shut, where the halves are
-- opened together, and each is shut by its own FIN or by a reset.
pub run_two_halves :
    (i now : ℕ) (es : List Event)
    → let s = (run on_event (new i now) es).phase in
      let h = run half_event unused_halves es in
      (can_send s ≡ is_usable h.local)
      × (can_recv s ≡ is_usable h.remote)
      × (is_closed s ≡ is_shut h.local && is_shut h.remote)
unfolding new
run_two_halves i now es = ground (arith, run_halves (new i now) es)
