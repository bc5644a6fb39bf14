-- ===== src/Ident/StreamId.antt =====
-- src/sl_stream_id.c: odd stream numbers for the client, even ones for the server.
use securelink.Common.{
  ℕ, zero, suc, ◌+◌, ◌*◌, ◌%◌, ◌≤◌, ◌<◌, ◌≡◌, refl, ◌≢◌, ◌⊎◌, inl, Bool, true, false, not, ◌&&◌,
  arith, ltb, leb, ◌==◌, if◌then◌else◌,
}
use securelink.Bytes.{u32}

abbrev pub id_control : ℕ
id_control = 0

abbrev pub id_max : ℕ
id_max = 0x7fffffff

pub data Role : Type 0 where
  client server : Role

pub record Alloc : Type 0 where
  pub role : Role
  pub next_id : ℕ

-- `sl_stream_id_init`
unfoldable pub stream_init : Role → Alloc
stream_init client = record { role = client; next_id = 1 }
stream_init server = record { role = server; next_id = 2 }

-- `sl_stream_id_next`: 0 where the numbers are used up.
unfoldable pub stream_next : Alloc → ℕ × Alloc
stream_next a =
    if ltb id_max a.next_id then (0, a) else (a.next_id, record a { next_id = u32 (a.next_id + 2) })

-- `sl_stream_id_is_control`
unfoldable pub is_control : ℕ → Bool
is_control id = id == id_control

-- `sl_stream_id_is_client_initiated`; the last bit is the remainder by 2.
unfoldable pub is_client_initiated : ℕ → Bool
is_client_initiated id = not (id == 0) && (id % 2 == 1)

-- `sl_stream_id_is_server_initiated`
unfoldable pub is_server_initiated : ℕ → Bool
is_server_initiated id = not (id == 0) && (id % 2 == 0)

-- `sl_stream_id_belongs_to_peer`
unfoldable pub belongs_to_peer : ℕ → Role → Bool
belongs_to_peer id client = if is_control id then false else is_server_initiated id
belongs_to_peer id server = if is_control id then false else is_client_initiated id

-- The allocator after `k` calls
unfoldable pub stream_after : ℕ → Alloc → Alloc
stream_after zero a = a
stream_after (suc k) a = stream_after k (stream_next a).1

-- What call number `k` gives, counted from 0
unfoldable pub stream_nth : ℕ → Role → ℕ
stream_nth k role = (stream_next (stream_after k (stream_init role))).0

abbrev pub first_id : Role → ℕ
first_id client = 1
first_id server = 2

stuck : (k : ℕ) (a : Alloc) → id_max < a.next_id → stream_after k a ≡ a
unfolding stream_after
stuck zero a h = refl
stuck (suc k) a h =
    let same : (stream_next a).1 ≡ a = unfold stream_next in ground arith in rw same (stuck k a h)

after_lem :
    (k : ℕ) (a : Alloc)
    → a.next_id ≤ id_max + 2
    → ((stream_after k a).next_id ≡ a.next_id + 2 * k)
      ⊎ ((id_max < (stream_after k a).next_id) × (id_max < a.next_id + 2 * k))
unfolding stream_after stream_next
after_lem zero a h = inl (omega arith)
after_lem (suc k) a h =
    ground (arith, stuck k a, after_lem k (record a { next_id = u32 (a.next_id + 2) }))

-- The calls of `sl_stream_id_next` on a fresh allocator give the numbers of its role's parity in
-- order, from 1 or 2 on, each once, and 0 when they would pass `id_max`.
pub stream_nth_lem :
    (k : ℕ) (role : Role)
    → let id = first_id role + 2 * k in stream_nth k role ≡ (if leb id id_max then id else 0)
unfolding stream_nth stream_next stream_init
stream_nth_lem k client = ground (arith, after_lem k (record { role = client; next_id = 1 }))
stream_nth_lem k server = ground (arith, after_lem k (record { role = server; next_id = 2 }))

abbrev pub other : Role → Role
other client = server
other server = client

-- A stream that one side opens is the peer's for the other side, and not for itself; so the two never
-- open streams of one number.
pub stream_nth-peer :
    (k : ℕ) (role : Role)
    → stream_nth k role ≢ 0
    → (belongs_to_peer (stream_nth k role) (other role) ≡ true)
      × (belongs_to_peer (stream_nth k role) role ≡ false)
unfolding belongs_to_peer is_control is_client_initiated is_server_initiated
stream_nth-peer k client h = ground (arith, stream_nth_lem k client)
stream_nth-peer k server h = ground (arith, stream_nth_lem k server)
