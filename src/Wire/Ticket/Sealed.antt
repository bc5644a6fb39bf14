-- ===== src/Wire/Ticket/Sealed.antt =====
-- Tickets sealed and opened.
use securelink.Common.{
  ℕ, ◌+◌, ◌^◌, ◌<◌, ◌≡◌, refl, sym, ap, ◌∙◌, inl, inr, some, List, [], ◌++◌, append_assoc,
  append-nil, arith, Option-cases, length, length-append, ok,
}
use securelink.Bytes.{pack_u32}
use securelink.Bytes.Reads.{bytes_at-eq, unpack_u32-eq}
use securelink.Crypto.Aead.{iv_len, tag_len, Aead, Laws}
use securelink.Wire.Ticket.{
  pt_len, total_len, TicketBody, pack_body, unpack_body, ticket_seal, ticket_unseal,
}

-- The fields fit their C types.
pub record FitsTicket (b : TicketBody) : Type 0 where
  pub issued_at_s : b.issued_at_s < 2 ^ 32
  pub lifetime_s : b.lifetime_s < 2 ^ 32
  pub secret : length b.resumption_secret ≡ 32
  pub identity : length b.peer_identity_pub ≡ 32

abbrev pub packed : TicketBody → List ℕ
packed b =
    pack_u32 b.issued_at_s
    ++ (pack_u32 b.lifetime_s ++ (b.resumption_secret ++ b.peer_identity_pub))

pack_body_lem : (b : TicketBody) → FitsTicket b → pack_body b ≡ ok (packed b)
unfolding pack_body
pack_body_lem b f =
    let s = b.resumption_secret in
    let p = b.peer_identity_pub in
    rw
      (
        bytes_at-eq s [] s [] 0 32 (sym (append-nil s)) refl (sym f.secret),
        bytes_at-eq p [] p [] 0 32 (sym (append-nil p)) refl (sym f.identity),
      )
      refl

length-packed : (b : TicketBody) → FitsTicket b → length (packed b) ≡ pt_len
unfolding pack_u32
length-packed b f =
    omega (arith, f.secret, f.identity, length-append b.resumption_secret b.peer_identity_pub)

unpack_body-packed : (b : TicketBody) → FitsTicket b → unpack_body (packed b) ≡ ok b
unfolding unpack_body pack_u32
unpack_body-packed b f =
    let s = b.resumption_secret in
    let p = b.peer_identity_pub in
    let at = pack_u32 b.issued_at_s in
    let life = pack_u32 b.lifetime_s in
    let input = packed b in
    let nil = ap (λ (t : List ℕ). at ++ (life ++ (s ++ t))) (sym (append-nil p)) in
    rw
      (
        unpack_u32-eq input [] (life ++ (s ++ p)) b.issued_at_s 0 f.issued_at_s refl refl,
        unpack_u32-eq input at (s ++ p) b.lifetime_s 4 f.lifetime_s refl refl,
        bytes_at-eq input (at ++ life) s p 8 32 refl refl (sym f.secret),
        bytes_at-eq input (at ++ (life ++ s)) p [] 40 32 nil (omega (arith, f.secret))
            (sym f.identity),
      )
      refl

module _ (aead : Aead) (laws : Laws aead) (stk : List ℕ) where
  pub length-ticket_seal :
      (iv : List ℕ) (b : TicketBody) (wire : List ℕ)
      → length iv ≡ iv_len
      → FitsTicket b
      → ticket_seal aead stk (some iv) b ≡ ok wire
      → length wire ≡ total_len
  unfolding ticket_seal
  length-ticket_seal iv b wire hi f e = elim (Option-cases (aead.seal stk iv iv (packed b))) [
    | inl refused ↦ absurd (ground (arith, pack_body_lem b f))
    | inr ((ct, tag), sealed) ↦
        let shape : wire ≡ iv ++ (ct ++ tag) = ground (arith, pack_body_lem b f) in
        let parts = ap length shape ∙ length-append iv (ct ++ tag) in
        omega (
          arith,
          parts,
          hi,
          length-append ct tag,
          length-packed b f,
          laws.length-ct stk iv iv (packed b) ct tag sealed,
          laws.length-tag stk iv iv (packed b) ct tag sealed,
        )
  ]

  -- `sl_ticket_open` gets back the body that `sl_ticket_seal` sealed under the same key, with
  -- whatever IV of twelve bytes, where the fields of the body fit their C types.
  pub ticket_unseal-seal :
      (iv : List ℕ) (b : TicketBody) (wire : List ℕ)
      → length iv ≡ iv_len
      → FitsTicket b
      → ticket_seal aead stk (some iv) b ≡ ok wire
      → ticket_unseal aead stk wire ≡ ok b
  unfolding ticket_seal ticket_unseal
  ticket_unseal-seal iv b wire hi f e = elim (Option-cases (aead.seal stk iv iv (packed b))) [
    | inl refused ↦ absurd (ground (arith, pack_body_lem b f))
    | inr ((ct, tag), sealed) ↦
        let shape : wire ≡ iv ++ (ct ++ tag) = ground (arith, pack_body_lem b f) in
        let size = length-packed b f in
        let lc = laws.length-ct stk iv iv (packed b) ct tag sealed in
        let lt = laws.length-tag stk iv iv (packed b) ct tag sealed in
        let r1 = bytes_at-eq wire [] iv (ct ++ tag) 0 iv_len shape refl (sym hi) in
        let r2 =
          bytes_at-eq wire iv ct tag iv_len pt_len shape (sym hi) (omega (arith, lc, size)) in
        let r3 =
          bytes_at-eq wire (iv ++ ct) tag [] (iv_len + pt_len) tag_len
            (shape
              ∙ sym (append_assoc iv ct tag)
              ∙ ap (λ (t : List ℕ). (iv ++ ct) ++ t) (sym (append-nil tag)))
            (omega (arith, hi, lc, size, length-append iv ct)) (sym lt) in
        rw (r1, r2, r3, laws.unseal-seal stk iv iv (packed b) ct tag sealed)
          (unpack_body-packed b f)
  ]
