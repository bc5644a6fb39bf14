-- ===== src/Session/Mux/Windows.antt =====
-- What the windows of the session promise.
use securelink.Common.{
  ℕ, zero, suc, ◌+◌, ◌≤◌, ◌≡◌, refl, ap, Bool, Option, none, some, List, [], ◌∷◌, length,
  length-append, arith,
}
use securelink.Common.Sequences.{run}
use securelink.Common.Assoc.{lookup, insert, lookup-insert, num_eq}
use securelink.Ident.StreamId.{Role, stream_next}
use securelink.Limit.Flow.{max_window, init_with, charge_send, charge_recv, grant_recv}
use securelink.Wire.Frame.{StreamFrame}
use securelink.Session.Mux.State.{
  prio_count, StreamRecord, StreamMultiplexer, new, put, find_or_create, prio_count,
}
use securelink.Session.Mux.Send.{
  open_stream, send_data, pop_outbound, popped as pop_result, pop_band, pop_scan,
}
use securelink.Session.Mux.Receive.{count_in, on_stream, on_frame, read_inbound, reset_stream}
use securelink.Session.Mux.Run.{Call, on_call, opened, sent, framed, popped, read, torn_down}

-- The bytes that have arrived and are not read yet.
unfoldable pub unread : List (ℕ × StreamRecord) → ℕ
unread [] = 0
unread ((id, r) ∷ rs) = length r.inbound + unread rs

abbrev waiting : Option StreamRecord → ℕ
waiting none = 0
waiting (some r) = length r.inbound

unread-insert :
    (id : ℕ) (r : StreamRecord) (rs : List (ℕ × StreamRecord))
    → unread (insert id r rs) + waiting (lookup id rs) ≡ unread rs + length r.inbound
unfolding unread
unread-insert id r [] = omega arith
unread-insert id r ((j, q) ∷ rs) = ground (arith, unread-insert id r rs)

unread-same :
    (id : ℕ) (q r : StreamRecord) (rs : List (ℕ × StreamRecord))
    → lookup id rs ≡ some q
    → length r.inbound ≡ length q.inbound
    → unread (insert id r rs) ≡ unread rs
unread-same id q r rs e h = omega (arith, unread-insert id r rs, ap waiting e)

-- What is unread in the streams that a search for a frame leaves.
abbrev left : List (ℕ × StreamRecord) → Option (StreamFrame × List (ℕ × StreamRecord)) → ℕ
left rs none = unread rs
left rs (some (f, rs')) = unread rs'

left-pop_band : (band : ℕ) (rs : List (ℕ × StreamRecord)) → left rs (pop_band band rs) ≡ unread rs
unfolding pop_band unread
left-pop_band band [] = refl
left-pop_band band ((id, r) ∷ rs) = ground (arith, left-pop_band band rs)

left-pop_scan :
    (n band : ℕ) (rs : List (ℕ × StreamRecord)) → left rs (pop_scan n band rs) ≡ unread rs
unfolding pop_scan
left-pop_scan zero band rs = refl
left-pop_scan (suc n) band rs = ground (arith, left-pop_band band rs, left-pop_scan n (suc band) rs)

find_or_create-lookup :
    (m : StreamMultiplexer) (id now : ℕ)
    → lookup id (find_or_create m id now).0.streams ≡ some (find_or_create m id now).1
unfolding find_or_create
find_or_create-lookup m id now = grind (arith, lookup-insert)

-- What the session may still receive and what is not read yet make up its window.
pub record IsBalanced (window : ℕ) (m : StreamMultiplexer) : Type 0 where
  pub capped : window ≤ max_window
  pub kept : m.initial_window ≡ window
  pub shared : m.session_flow.recv_window + unread m.streams ≡ window

module _ (w : ℕ) where
  send_data-IsBalanced :
      (m : StreamMultiplexer) (id : ℕ) (bytes : List ℕ) (fin : Bool)
      → IsBalanced w m
      → IsBalanced w (send_data m id bytes fin).0
  unfolding send_data charge_send
  send_data-IsBalanced m id bytes fin b = grind (arith, unread-insert)

  read_inbound-IsBalanced :
      (m : StreamMultiplexer) (id : ℕ) → IsBalanced w m → IsBalanced w (read_inbound m id).0
  unfolding read_inbound grant_recv
  read_inbound-IsBalanced m id b = grind (arith, unread-insert)

  reset_stream-IsBalanced :
      (m : StreamMultiplexer) (id : ℕ) (x : List ℕ)
      → IsBalanced w m
      → IsBalanced w (reset_stream m id x).0
  unfolding reset_stream
  reset_stream-IsBalanced m id x b = grind (arith, unread-insert)

  pop_outbound-IsBalanced :
      (m : StreamMultiplexer) → IsBalanced w m → IsBalanced w (pop_outbound m).0
  unfolding pop_outbound
  pop_outbound-IsBalanced m b =
      popped-IsBalanced (pop_scan prio_count 0 m.streams) (left-pop_scan prio_count 0 m.streams)
    where
      popped-IsBalanced :
          (x : Option (StreamFrame × List (ℕ × StreamRecord)))
          → left m.streams x ≡ unread m.streams
          → IsBalanced w (pop_result m x).0
      popped-IsBalanced none e = b
      popped-IsBalanced (some (f, rs)) e = ground arith

  find_or_create-IsBalanced :
      (m : StreamMultiplexer) (id now : ℕ)
      → IsBalanced w m
      → IsBalanced w (find_or_create m id now).0
  unfolding find_or_create
  find_or_create-IsBalanced m id now b = grind (arith, unread-insert)

  on_stream-IsBalanced :
      (f : StreamFrame) (m : StreamMultiplexer) (r : StreamRecord)
      → lookup f.stream_id m.streams ≡ some r
      → IsBalanced w m
      → IsBalanced w (on_stream f (m, r)).0
  unfolding on_stream charge_recv
  on_stream-IsBalanced f m r e b = grind (arith, unread-insert, length-append)

  on_frame-IsBalanced :
      (m : StreamMultiplexer) (f : StreamFrame) (now : ℕ)
      → IsBalanced w m
      → IsBalanced w (on_frame m f now).0
  unfolding on_frame
  on_frame-IsBalanced m f now b =
      let m' : StreamMultiplexer = record m { stats = count_in (length f.payload) m.stats } in
      let b' : IsBalanced w m' = record { capped = b.capped; kept = b.kept; shared = b.shared } in
      let (k, r) = find_or_create m' f.stream_id now in
      let found = find_or_create-lookup m' f.stream_id now in
      let kept = find_or_create-IsBalanced m' f.stream_id now b' in
      ground (arith, on_stream-IsBalanced f k r found kept, b')

  open_stream-IsBalanced :
      (m : StreamMultiplexer) (prio now : ℕ)
      → IsBalanced w m
      → IsBalanced w (open_stream m prio now).0
  unfolding open_stream put
  open_stream-IsBalanced m prio now b =
      let (id, alloc) = stream_next m.id_alloc in
      let m' : StreamMultiplexer = record m { id_alloc = alloc } in
      let b' : IsBalanced w m' = record { capped = b.capped; kept = b.kept; shared = b.shared } in
      let (k, r) = find_or_create m' id now in
      let found = find_or_create-lookup m' id now in
      let kept = find_or_create-IsBalanced m' id now b' in
      ground (arith, b', kept, unread-same id r (record r { priority = prio }) k.streams found refl)

  on_call-IsBalanced :
      (m : StreamMultiplexer) (c : Call) → IsBalanced w m → IsBalanced w (on_call m c)
  unfolding on_call
  on_call-IsBalanced m (opened prio now) b = open_stream-IsBalanced m prio now b
  on_call-IsBalanced m (sent id bytes fin) b = send_data-IsBalanced m id bytes fin b
  on_call-IsBalanced m (framed f now) b = on_frame-IsBalanced m f now b
  on_call-IsBalanced m popped b = pop_outbound-IsBalanced m b
  on_call-IsBalanced m (read id) b = read_inbound-IsBalanced m id b
  on_call-IsBalanced m (torn_down id reason) b = reset_stream-IsBalanced m id reason b

  run-IsBalanced :
      (m : StreamMultiplexer) (cs : List Call) → IsBalanced w m → IsBalanced w (run on_call m cs)
  run-IsBalanced m [] b = b
  run-IsBalanced m (c ∷ cs) b = run-IsBalanced (on_call m c) cs (on_call-IsBalanced m c b)

-- In a session whose window is at most the largest that flow control allows, whatever frames
-- arrive and whatever is called: over all streams together no more bytes wait to be read than the
-- window, which is what they and the credit that the peer has left add up to.
pub unread-bounded :
    (role : Role) (window : ℕ) (cs : List Call)
    → window ≤ max_window
    → let m = run on_call (new role window) cs in
      (m.session_flow.recv_window + unread m.streams ≡ window) × (unread m.streams ≤ window)
unfolding new init_with unread
unread-bounded role window cs h =
    let b =
      run-IsBalanced window (new role window) cs
        (record { capped = h; kept = refl; shared = omega arith }) in
    omega (arith, b.shared)
