-- ===== src/Session/Mux/Credit.antt =====
-- What the session may send.
use securelink.Common.{ℕ, ◌+◌, ◌≤◌, ◌≡◌, Bool, List, [], ◌∷◌, length, arith, if◌then◌else◌}
use securelink.Common.Sequences.{run}
use securelink.Ident.StreamId.{Role, stream_next}
use securelink.Limit.Flow.{init_with, charge_send, charge_recv, grant_recv, can_send}
use securelink.Wire.Frame.{StreamFrame}
use securelink.Session.Mux.State.{StreamRecord, StreamMultiplexer, new, put, find_or_create}
use securelink.Session.Mux.Send.{open_stream, send_data, pop_outbound, popped}
use securelink.Session.Mux.Receive.{count_in, on_stream, on_frame, read_inbound, reset_stream}
use securelink.Session.Mux.Run.{Call, on_call, opened, sent, framed, read, torn_down}

-- The bytes that a call of `send_data` takes.
abbrev taken : StreamMultiplexer → Call → ℕ
taken m (sent id bytes fin) = if (send_data m id bytes fin).1 then length bytes else 0
taken m c = 0

-- All bytes that the calls of `send_data` take.
pub taken_by : StreamMultiplexer → List Call → ℕ
taken_by m [] = 0
taken_by m (c ∷ cs) = taken m c + taken_by (on_call m c) cs

abbrev credit : StreamMultiplexer → ℕ
credit m = m.session_flow.send_credit

credit-send_data :
    (m : StreamMultiplexer) (id : ℕ) (bytes : List ℕ) (fin : Bool)
    → credit (send_data m id bytes fin).0
        + (if (send_data m id bytes fin).1 then length bytes else 0)
      ≡ credit m
unfolding send_data charge_send can_send
credit-send_data m id bytes fin = ground arith

credit-on_stream :
    (f : StreamFrame) (m : StreamMultiplexer) (r : StreamRecord)
    → credit (on_stream f (m, r)).0 ≡ credit m
unfolding on_stream charge_recv
credit-on_stream f m r = ground arith

credit-find_or_create :
    (m : StreamMultiplexer) (id now : ℕ) → credit (find_or_create m id now).0 ≡ credit m
unfolding find_or_create
credit-find_or_create m id now = ground arith

credit-on_call : (m : StreamMultiplexer) (c : Call) → credit (on_call m c) + taken m c ≡ credit m
unfolding on_call open_stream put pop_outbound popped on_frame read_inbound reset_stream grant_recv
credit-on_call m (opened prio now) =
    let (id, alloc) = stream_next m.id_alloc in
    ground (arith, credit-find_or_create (record m { id_alloc = alloc }) id now)
credit-on_call m (sent id bytes fin) = credit-send_data m id bytes fin
credit-on_call m (framed f now) =
    let m' : StreamMultiplexer = record m { stats = count_in (length f.payload) m.stats } in
    let (k, r) = find_or_create m' f.stream_id now in
    ground (arith, credit-find_or_create m' f.stream_id now, credit-on_stream f k r)
credit-on_call m Call.popped = ground arith
credit-on_call m (read id) = ground arith
credit-on_call m (torn_down id reason) = ground arith

credit-run :
    (m : StreamMultiplexer) (cs : List Call) → credit (run on_call m cs) + taken_by m cs ≡ credit m
unfolding taken_by
credit-run m [] = omega arith
credit-run m (c ∷ cs) = omega (arith, credit-on_call m c, credit-run (on_call m c) cs)

-- Whatever windows the peer grants: what `send_data` takes over all streams in the life of a session
-- never passes the first window, since nothing ever gives credit back to the session.
pub taken-bounded :
    (role : Role) (window : ℕ) (cs : List Call)
    → ((run on_call (new role window) cs).session_flow.send_credit + taken_by (new role window) cs
        ≡ window)
      × (taken_by (new role window) cs ≤ window)
unfolding new init_with
taken-bounded role window cs = omega (arith, credit-run (new role window) cs)
