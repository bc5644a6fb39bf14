-- ===== src/Session/Manager/Resumption.antt =====
-- A session that is resumed from its ticket.
use securelink.Common.{
  ℕ, ◌+◌, ◌^◌, ◌<◌, ◌≡◌, ◌&&◌, none, some, List, length, if◌then◌else◌, ltb, leb, arith,
  Outcome-cases, inl, inr,
}
use securelink.Common.Assoc.{num_eq}
use securelink.Bytes.{u32}
use securelink.Crypto.Aead.{Aead, Laws, iv_len}
use securelink.Wire.Ticket.{TicketBody, ticket_seal, is_fresh}
use securelink.Wire.Ticket.Sealed.{FitsTicket, ticket_unseal-seal, length-ticket_seal}
use securelink.Session.Manager.{Session, SessionManager, snapshot, issue_ticket, consume_ticket}

-- What a ticket says.
abbrev pub ticket_of : SessionManager → Session → List ℕ → ℕ → TicketBody
ticket_of m s resumption_secret now_s = record {
  issued_at_s = u32 now_s;
  lifetime_s = m.cfg.ticket_lifetime_seconds;
  resumption_secret = resumption_secret;
  peer_identity_pub = s.peer_identity;
}

module _ (aead : Aead) (laws : Laws aead) where
  -- A ticket that was issued for a session gives back the peer's identity and the secret, under
  -- the same key, from the second of its issue until its lifetime is over, and nothing before or
  -- after. The secret and the identity have 32 bytes, the IV 12, the times are below 2 ^ 32
  -- seconds, and the sealing did not fail.
  pub consume_ticket-issue_ticket :
      (m : SessionManager) (id : ℕ) (s : Session) (stk secret iv : List ℕ) (issued later : ℕ)
      → snapshot m id ≡ some s
      → length iv ≡ iv_len
      → length secret ≡ 32
      → length s.peer_identity ≡ 32
      → m.cfg.ticket_lifetime_seconds < 2 ^ 32
      → issued < 2 ^ 32
      → later < 2 ^ 32
      → 0 < length (issue_ticket aead m id stk secret issued (some iv))
      → consume_ticket aead stk (issue_ticket aead m id stk secret issued (some iv)) later ≡ (
          if leb issued later && ltb later (issued + m.cfg.ticket_lifetime_seconds)
          then some (ticket_of m s secret issued)
          else none)
  unfolding snapshot issue_ticket consume_ticket is_fresh
  consume_ticket-issue_ticket m id s stk secret iv issued later found hi hs hp hl h1 h2 made =
      let body : TicketBody = ticket_of m s secret issued in
      let fits : FitsTicket body = record {
        issued_at_s = omega arith;
        lifetime_s = hl;
        secret = hs;
        identity = hp;
      } in
      elim (Outcome-cases (ticket_seal aead stk (some iv) body)) [
        | inl (wire, sealed) ↦
            let back = ticket_unseal-seal aead laws stk iv body wire hi fits sealed in
            let size = length-ticket_seal aead laws stk iv body wire hi fits sealed in ground arith
        | inr bad ↦ absurd (ground arith)
      ]
