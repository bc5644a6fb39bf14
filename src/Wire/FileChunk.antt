-- ===== src/Wire/FileChunk.antt =====
-- src/sl_file_chunk.c, and src/sl_crc32.c for the checksum of a chunk.
pub mod Codec
use securelink.Wire.FileMeta.{chunk_max}
use securelink.Common.{
  ℕ, ◌+◌, ◌/◌, ◌%◌, ◌^◌, bit_xor, Bool, not, ◌||◌, List, [], ◌∷◌, ◌++◌, ltb, ◌==◌, if◌then◌else◌,
  length, Outcome, ok, ◌>>=◌, ◌>>◌, reject_if,
}
use securelink.Bytes.{u32, byte_at, bytes_at, pack_u32, unpack_u32}

abbrev pub header_len : ℕ
header_len = 16

abbrev pub poly : ℕ
poly = 0x82f63b78

-- One of the eight rounds that make a table entry; the last bit is the remainder by 2.
unfoldable pub crc_round : ℕ → ℕ
crc_round c = if c % 2 == 1 then bit_xor poly (c / 2) else c / 2

-- `build_table`, entry by entry
unfoldable pub crc_entry : ℕ → ℕ
crc_entry i =
    crc_round (crc_round (crc_round (crc_round (crc_round (crc_round (crc_round (crc_round i)))))))

-- `sl_crc32c_update`, over `uint32_t`; `& 0xFF` is the remainder by 256.
unfoldable pub crc_update : ℕ → List ℕ → ℕ
crc_update crc [] = crc
crc_update crc (b ∷ bs) =
    crc_update (u32 (bit_xor (crc_entry (bit_xor crc b % 2 ^ 8)) (crc / 2 ^ 8))) bs

-- `sl_crc32c_init`
abbrev pub crc_init : ℕ
crc_init = 0xffffffff

-- `sl_crc32c_finalize`
unfoldable pub crc_finalize : ℕ → ℕ
crc_finalize crc = u32 (bit_xor crc 0xffffffff)

-- `sl_crc32c`
unfoldable pub crc32c : List ℕ → ℕ
crc32c bytes = crc_finalize (crc_update crc_init bytes)

-- `bytes`, the `data` of the source, is as long as `data_len` says.
pub record FileChunk : Type 0 where
  pub chunk_index : ℕ
  pub crc32c : ℕ
  pub flags : ℕ
  pub bytes : List ℕ

-- The checksum of a chunk's data, 0 for none
unfoldable pub chunk_crc : List ℕ → ℕ
chunk_crc [] = 0
chunk_crc (b ∷ bs) = crc32c (b ∷ bs)

-- `sl_file_chunk_pack`: the bytes written at `out`. The checksum is made here; the field of the
-- argument is not looked at.
unfoldable pub chunk_pack : FileChunk → ℕ → Outcome (List ℕ)
chunk_pack c out_cap = do
  let need = header_len + length c.bytes
  reject_if (ltb out_cap need)
  ok (
      pack_u32 c.chunk_index
      ++ (pack_u32 (length c.bytes)
          ++ (pack_u32 (chunk_crc c.bytes) ++ (c.flags ∷ 0 ∷ 0 ∷ 0 ∷ c.bytes))))

-- `sl_file_chunk_unpack`
unfoldable pub chunk_unpack : List ℕ → Outcome FileChunk
chunk_unpack input = do
  reject_if (ltb (length input) header_len)
  chunk_index ← unpack_u32 input 0
  data_len ← unpack_u32 input 4
  crc ← unpack_u32 input 8
  flags ← byte_at input 12
  r1 ← byte_at input 13
  r2 ← byte_at input 14
  r3 ← byte_at input 15
  reject_if (not (r1 == 0) || not (r2 == 0) || not (r3 == 0))
  reject_if (ltb chunk_max data_len)
  reject_if (ltb (length input) (header_len + data_len))
  bytes ← bytes_at input header_len data_len
  ok (record { chunk_index = chunk_index; crc32c = crc; flags = flags; bytes = bytes })

-- `sl_file_chunk_crc_ok`
unfoldable pub crc_ok : FileChunk → Bool
crc_ok c = chunk_crc c.bytes == c.crc32c
