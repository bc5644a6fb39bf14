-- ===== src/Wire/Ticket.antt =====
-- src/sl_session_ticket.c: what a server seals for a client to resume a session with. `random` is
-- what `sl_rng_bytes` gives for the IV (`none`: it failed).
pub mod Sealed
use securelink.Common.{
  ℕ, ◌+◌, ◌-◌, Bool, false, Option, none, some, List, ◌++◌, ltb, ◌==◌, if◌then◌else◌, Outcome, ok,
  fail, ◌>>=◌, ◌>>◌,
}
use securelink.Bytes.{bytes_at, pack_u32, unpack_u32}
use securelink.Crypto.Aead.{iv_len, tag_len, Aead}

abbrev pub pt_len : ℕ
pt_len = 72

abbrev pub total_len : ℕ
total_len = iv_len + pt_len + tag_len

-- The two arrays have 32 bytes each.
pub record TicketBody : Type 0 where
  pub issued_at_s : ℕ
  pub lifetime_s : ℕ
  pub resumption_secret : List ℕ
  pub peer_identity_pub : List ℕ

-- `pack_body`
unfoldable pub pack_body : TicketBody → Outcome (List ℕ)
pack_body b = do
  secret ← bytes_at b.resumption_secret 0 32
  identity ← bytes_at b.peer_identity_pub 0 32
  ok (pack_u32 b.issued_at_s ++ (pack_u32 b.lifetime_s ++ (secret ++ identity)))

-- `unpack_body`
unfoldable pub unpack_body : List ℕ → Outcome TicketBody
unpack_body pt = do
  issued_at_s ← unpack_u32 pt 0
  lifetime_s ← unpack_u32 pt 4
  secret ← bytes_at pt 8 32
  identity ← bytes_at pt (8 + 32) 32
  ok (record {
    issued_at_s = issued_at_s;
    lifetime_s = lifetime_s;
    resumption_secret = secret;
    peer_identity_pub = identity;
  })

-- `sl_ticket_is_fresh`, true for its 1
unfoldable pub is_fresh : TicketBody → ℕ → Bool
is_fresh b now_s =
    if b.lifetime_s == 0
    then false
    else if ltb now_s b.issued_at_s
    then false
    else ltb (now_s - b.issued_at_s) b.lifetime_s

module _ (aead : Aead) (stk : List ℕ) where
  -- `sl_ticket_seal`: the IV is the additional data too.
  unfoldable pub ticket_seal : Option (List ℕ) → TicketBody → Outcome (List ℕ)
  ticket_seal none b = pack_body b >>= λ pt. fail
  ticket_seal (some iv) b = do
    pt ← pack_body b
    elim (aead.seal stk iv iv pt) [ none ↦ fail | some (ct, tag) ↦ ok (iv ++ (ct ++ tag)) ]

  -- `sl_ticket_open`
  unfoldable pub ticket_unseal : List ℕ → Outcome TicketBody
  ticket_unseal wire = do
    iv ← bytes_at wire 0 iv_len
    ct ← bytes_at wire iv_len pt_len
    tag ← bytes_at wire (iv_len + pt_len) tag_len
    elim (aead.unseal stk iv iv ct tag) [ none ↦ fail | some pt ↦ unpack_body pt ]
