-- ===== src/Tests/Files.antt =====
-- A file's chunk and a session's ticket.
use securelink.Common.{ℕ, ◌≡◌, refl, some, List, [], ◌∷◌, ◌++◌, replicate, ok}
use securelink.Bytes.{bytes_at, pack_u32}
use securelink.Crypto.Aead.{plain}
use securelink.Wire.FileChunk.{
  crc_round, crc_entry, crc_update, crc_finalize, crc32c, FileChunk, chunk_crc, chunk_pack,
}
use securelink.Wire.Ticket.{TicketBody, pack_body, ticket_seal}

-- The digits from 1 to 9, whose checksum is the usual check value
abbrev digits : List ℕ
digits = 49 ∷ 50 ∷ 51 ∷ 52 ∷ 53 ∷ 54 ∷ 55 ∷ 56 ∷ 57 ∷ []

digits-crc : crc32c digits ≡ 0xe3069283
unfolding crc32c crc_finalize crc_update crc_entry crc_round
digits-crc = refl

abbrev chunk : FileChunk
chunk = record { chunk_index = 2; crc32c = 0; flags = 1; bytes = digits }

abbrev chunk_wire : List ℕ
chunk_wire = 0 ∷ 0 ∷ 0 ∷ 2 ∷ 0 ∷ 0 ∷ 0 ∷ 9 ∷ 0xe3 ∷ 0x06 ∷ 0x92 ∷ 0x83 ∷ 1 ∷ 0 ∷ 0 ∷ 0 ∷ digits

chunk_packs : chunk_pack chunk 25 ≡ ok chunk_wire
unfolding chunk_pack chunk_crc crc32c crc_finalize crc_update crc_entry crc_round pack_u32
chunk_packs = refl

abbrev stk : List ℕ
stk = replicate 32 5

abbrev iv : List ℕ
iv = replicate 12 3

abbrev ticket : TicketBody
ticket = record {
  issued_at_s = 1000;
  lifetime_s = 60;
  resumption_secret = replicate 32 1;
  peer_identity_pub = replicate 32 2;
}

abbrev ticket_wire : List ℕ
ticket_wire =
    replicate 12 3
    ++ (0 ∷ 0 ∷ 3 ∷ 232 ∷ 0 ∷ 0 ∷ 0 ∷ 60 ∷ (replicate 32 1 ++ (replicate 32 2 ++ replicate 16 5)))

ticket_seals : ticket_seal plain stk (some iv) ticket ≡ ok ticket_wire
unfolding ticket_seal pack_body bytes_at pack_u32
ticket_seals = refl
