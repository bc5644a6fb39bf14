-- ===== src/Wire/FileMeta.antt =====
-- src/sl_file_meta.c: what a sender says of a file before its chunks.
pub mod Codec
use securelink.Common.{
  ℕ, ◌+◌, ◌-◌, ◌/◌, ◌^◌, Bool, true, false, not, ◌&&◌, ◌||◌, List, [], ◌∷◌, ◌++◌, ltb, ◌==◌,
  if◌then◌else◌, length, replicate, Outcome, ok, ◌>>=◌, ◌>>◌, reject_if,
}
use securelink.Bytes.{
  u64, bytes_at, pack_u16, pack_u32, pack_u64, unpack_u16, unpack_u32, unpack_u64,
}

abbrev pub fixed_len : ℕ
fixed_len = 82

abbrev pub name_max : ℕ
name_max = 256

abbrev pub chunk_min : ℕ
chunk_min = 1024

abbrev pub chunk_max : ℕ
chunk_max = 65536

-- `name` is the first `name_len` characters, `sha256` an array of 32 bytes.
pub record FileMeta : Type 0 where
  pub total_size : ℕ
  pub chunk_size : ℕ
  pub total_chunks : ℕ
  pub mode : ℕ
  pub mtime_s : ℕ
  pub sha256 : List ℕ
  pub name : List ℕ

-- The characters of a name, a slash 47, a backslash 92 and what is below the space left out
unfoldable pub chars_ok : List ℕ → Bool
chars_ok [] = true
chars_ok (c ∷ cs) = not (c == 47) && not (c == 92) && not (c == 0) && not (ltb c 32) && chars_ok cs

-- A name that begins with two dots, 46
unfoldable pub dots_ahead : List ℕ → Bool
dots_ahead [] = false
dots_ahead (a ∷ []) = false
dots_ahead (a ∷ b ∷ cs) = (a == 46) && (b == 46)

-- `expected`: the chunks that the size needs; the sum wraps as `uint64_t`.
unfoldable pub expected_chunks : FileMeta → ℕ
expected_chunks m = u64 (u64 (m.total_size + m.chunk_size) + 2 ^ 64 - 1) / m.chunk_size

-- `sl_file_meta_validate`, true for its 0
unfoldable pub meta_validate : FileMeta → Bool
meta_validate m =
    if ltb m.chunk_size chunk_min || ltb chunk_max m.chunk_size
    then false
    else if (length m.name == 0) || ltb name_max (length m.name)
    then false
    else if not (chars_ok m.name) || dots_ahead m.name
    then false
    else if m.total_size == 0
    then m.total_chunks == 0
    else m.total_chunks == expected_chunks m

-- `sl_file_meta_pack`: the bytes written at `out`.
unfoldable pub meta_pack : FileMeta → ℕ → Outcome (List ℕ)
meta_pack m out_cap = do
  reject_if (not (meta_validate m))
  let need = fixed_len + length m.name
  reject_if (ltb out_cap need)
  sha256 ← bytes_at m.sha256 0 32
  ok (
      pack_u64 m.total_size
      ++ (pack_u32 m.chunk_size
          ++ (pack_u32 m.total_chunks
              ++ (pack_u32 m.mode
                  ++ (pack_u32 m.mtime_s
                      ++ (sha256 ++ (pack_u16 (length m.name) ++ (replicate 24 0 ++ m.name))))))))

-- `sl_file_meta_unpack`
unfoldable pub meta_unpack : List ℕ → Outcome FileMeta
meta_unpack input = do
  reject_if (ltb (length input) fixed_len)
  total_size ← unpack_u64 input 0
  chunk_size ← unpack_u32 input 8
  total_chunks ← unpack_u32 input 12
  mode ← unpack_u32 input 16
  mtime_s ← unpack_u32 input 20
  sha256 ← bytes_at input 24 32
  name_len ← unpack_u16 input 56
  reject_if (ltb name_max name_len)
  reject_if (ltb (length input) (fixed_len + name_len))
  name ← bytes_at input fixed_len name_len
  let m : FileMeta = record {
    total_size = total_size;
    chunk_size = chunk_size;
    total_chunks = total_chunks;
    mode = mode;
    mtime_s = mtime_s;
    sha256 = sha256;
    name = name;
  }
  reject_if (not (meta_validate m))
  ok m
