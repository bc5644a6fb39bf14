-- ===== src/Ident/Varint.antt =====
-- src/sl_varint.c: numbers of 64 bits, seven bits to a byte. A loop has as much fuel as the longest
-- number has bytes.
pub mod Codec
use securelink.Common.{
  ℕ, zero, suc, ◌+◌, ◌-◌, ◌*◌, ◌/◌, ◌%◌, ◌^◌, List, [], ◌∷◌, ltb, ◌==◌, if◌then◌else◌, bit_or,
  Outcome, ok, fail, ◌>>=◌, ◌>>◌, reject_if,
}
use securelink.Bytes.{u8, u64}

abbrev pub max_len : ℕ
max_len = 10

-- The loop of `sl_varint_size_u64`
unfoldable pub size_loop : ℕ → ℕ → ℕ
size_loop zero v = 1
size_loop (suc n) v = let rest = size_loop n (v / 2 ^ 7) in if ltb v 0x80 then 1 else rest + 1

unfoldable pub size_u64 : ℕ → ℕ
unfolding size_loop
size_u64 v = size_loop max_len v

-- The loop of `sl_varint_encode_u64`: the bytes written, with room for `cap`.
unfoldable pub encode_loop : ℕ → ℕ → ℕ → Outcome (List ℕ)
encode_loop zero v cap = fail
encode_loop (suc n) v cap =
    let rest = encode_loop n (v / 2 ^ 7) (cap - 1) in
    if cap == 0
    then fail
    else if ltb v 0x80
    then ok (u8 v ∷ [])
    else rest >>= λ bytes. ok (u8 (bit_or v 0x80) ∷ bytes)

-- `sl_varint_encode_u64`
unfoldable pub encode_u64 : ℕ → ℕ → Outcome (List ℕ)
unfolding encode_loop
encode_u64 v out_cap = encode_loop max_len v out_cap

-- The loop of `sl_varint_decode_u64`, from the byte `i` on: the number, and how many bytes it took.
-- `& 0x7F` is the remainder by 128, `& 0x80` the rest.
unfoldable pub decode_loop : ℕ → ℕ → ℕ → ℕ → List ℕ → Outcome (ℕ × ℕ)
decode_loop zero i shift result input = fail
decode_loop (suc n) i shift result [] = fail
decode_loop (suc n) i shift result (b ∷ input) =
    let more = bit_or result (u64 (b % 2 ^ 7 * 2 ^ shift)) in
    let rest = decode_loop n (i + 1) (shift + 7) more input in
    if ltb b 0x80 then ok (more, i + 1) else if ltb 63 (shift + 7) then fail else rest

-- `sl_varint_decode_u64`
unfoldable pub decode_u64 : List ℕ → Outcome (ℕ × ℕ)
unfolding decode_loop
decode_u64 input = decode_loop max_len 0 0 0 input
