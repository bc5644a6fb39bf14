-- ===== src/Wire/FileChunk/Codec.antt =====
-- File chunks on the wire.
use securelink.Wire.FileMeta.{chunk_max}
use securelink.Common.{
  ℕ, ◌^◌, ◌≤◌, ◌<◌, ◌≡◌, ◌≢◌, true, List, [], ◌∷◌, ◌++◌, arith, length, length-append, ok, fault,
}
use securelink.Bytes.{byte_at, pack_u32, unpack_u32}
use securelink.Bytes.Reads.{u32_at, byte_at-ok, unpack_u32-ok, bytes_at-ok, bytes_at-middle}
use securelink.Bytes.Fields.{join_u32-split}
use securelink.Wire.FileChunk.{
  header_len, crc_finalize, crc32c, FileChunk, chunk_crc, chunk_pack, chunk_unpack, crc_ok,
}

chunk_crc-lt : (bytes : List ℕ) → chunk_crc bytes < 2 ^ 32
unfolding chunk_crc crc32c crc_finalize
chunk_crc-lt [] = omega arith
chunk_crc-lt (b ∷ bs) = omega arith

abbrev chunk_header : FileChunk → List ℕ
chunk_header c =
    pack_u32 c.chunk_index
    ++ (pack_u32 (length c.bytes) ++ (pack_u32 (chunk_crc c.bytes) ++ (c.flags ∷ 0 ∷ 0 ∷ 0 ∷ [])))

chunk_unpack-packed :
    (c : FileChunk) (rest : List ℕ)
    → c.chunk_index < 2 ^ 32
    → length c.bytes ≤ chunk_max
    → chunk_unpack (chunk_header c ++ (c.bytes ++ rest))
      ≡ ok (record c { crc32c = chunk_crc c.bytes })
unfolding chunk_unpack pack_u32 unpack_u32 byte_at
chunk_unpack-packed c rest hi hl = ground (
  arith,
  join_u32-split c.chunk_index,
  join_u32-split (length c.bytes),
  join_u32-split (chunk_crc c.bytes),
  chunk_crc-lt c.bytes,
  bytes_at-middle (chunk_header c) c.bytes rest,
  length-append c.bytes rest,
)

-- A chunk of at most `chunk_max` bytes and an index of 32 bits is read back as it was packed,
-- whatever comes behind it, with its checksum, which `sl_file_chunk_crc_ok` then finds right.
pub chunk_unpack-pack :
    (c : FileChunk) (out_cap : ℕ) (wire rest : List ℕ)
    → c.chunk_index < 2 ^ 32
    → length c.bytes ≤ chunk_max
    → chunk_pack c out_cap ≡ ok wire
    → let c' : FileChunk = record c { crc32c = chunk_crc c.bytes } in
      (chunk_unpack (wire ++ rest) ≡ ok c') × (crc_ok c' ≡ true)
unfolding chunk_pack pack_u32 crc_ok
chunk_unpack-pack c out_cap wire rest hi hl e =
    (ground (arith, chunk_unpack-packed c rest hi hl), ground arith)

-- Whatever the input, `sl_file_chunk_unpack` reads no byte outside it.
pub chunk_unpack-ne-fault : (input : List ℕ) → chunk_unpack input ≢ fault
unfolding chunk_unpack
chunk_unpack-ne-fault input = ground (
  arith,
  unpack_u32-ok input 0,
  unpack_u32-ok input 4,
  unpack_u32-ok input 8,
  byte_at-ok input 12,
  byte_at-ok input 13,
  byte_at-ok input 14,
  byte_at-ok input 15,
  bytes_at-ok input header_len (u32_at input 4),
)
