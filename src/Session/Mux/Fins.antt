-- ===== src/Session/Mux/Fins.antt =====
-- The end of a stream.
use securelink.Common.{ℕ, ◌≡◌, true, some, [], ◌∷◌, arith}
use securelink.Common.Assoc.{lookup, num_eq, lookup-insert}
use securelink.Session.Phase
use securelink.Session.Phase.{half_closed_local, half_closed_remote, closed, on_sent_fin}
use securelink.Session.Mux.State.{frame_data, flag_fin, StreamRecord, StreamMultiplexer}
use securelink.Session.Mux.Send.{send_data, pop_here}

-- The record of a stream after its last call of `send_data`.
abbrev pub ended : StreamRecord → StreamRecord
ended r = record r { state = (on_sent_fin r.state).0; outbound = [] ∷ [] }

-- A FIN on an open stream with nothing queued: the stream is half closed, and the next frame for it
-- is empty and carries the flag.
pub fin_first :
    (m : StreamMultiplexer) (id : ℕ) (r : StreamRecord)
    → lookup id m.streams ≡ some r
    → r.state.phase ≡ Phase.active
    → r.outbound ≡ []
    → ((send_data m id [] true).1 ≡ true)
      × (lookup id (send_data m id [] true).0.streams ≡ some (ended r))
      × (pop_here r.priority id (ended r)
          ≡ some (
            record { kind = frame_data; flags = flag_fin; stream_id = id; payload = [] },
            record (ended r) { outbound = [] },
          ))
unfolding send_data pop_here on_sent_fin
fin_first m id r e p o = ground (arith, lookup-insert id id (ended r) m.streams)

-- Ending a stream whose peer has ended it already, with nothing queued: `send_data` says yes and
-- closes the stream, but the frame that is sent for it does not carry the FIN flag.
pub fin_second :
    (m : StreamMultiplexer) (id : ℕ) (r : StreamRecord)
    → lookup id m.streams ≡ some r
    → r.state.phase ≡ half_closed_remote
    → r.outbound ≡ []
    → ((send_data m id [] true).1 ≡ true)
      × ((ended r).state.phase ≡ closed)
      × (lookup id (send_data m id [] true).0.streams ≡ some (ended r))
      × (pop_here r.priority id (ended r)
          ≡ some (
            record { kind = frame_data; flags = 0; stream_id = id; payload = [] },
            record (ended r) { outbound = [] },
          ))
unfolding send_data pop_here on_sent_fin
fin_second m id r e p o = ground (arith, lookup-insert id id (ended r) m.streams)
