-- ===== src/Ident/Hexstr.antt =====
-- src/sl_hexstr.c: texts are lists of characters.
pub mod Codec
use securelink.Common.{
  ℕ, zero, suc, ◌+◌, ◌-◌, ◌*◌, ◌/◌, ◌%◌, ◌^◌, ◌&&◌, not, List, [], ◌∷◌, ◌++◌, ltb, leb, ◌==◌,
  if◌then◌else◌, length, get_or, bit_or, Outcome, ok, fail, ◌>>=◌, ◌>>◌, reject_if,
}
use securelink.Common.Text.{codes}
use securelink.Bytes.{u8, u64, byte_at}

-- `d[]`
abbrev pub digits : List ℕ
digits = codes "0123456789abcdef"

unfoldable pub digit : ℕ → ℕ
digit n = get_or digits n 0

-- The loop of `sl_hexstr_encode`
unfoldable pub encode_loop : List ℕ → List ℕ
unfolding digit
encode_loop [] = []
encode_loop (b ∷ bs) = digit (b / 16 % 16) ∷ digit (b % 16) ∷ encode_loop bs

-- `sl_hexstr_encode`: the characters written, with the final zero.
unfoldable pub encode : List ℕ → ℕ → Outcome (List ℕ)
unfolding encode_loop
encode input out_cap = do
  reject_if (ltb out_cap (length input * 2 + 1))
  ok (encode_loop input ++ (0 ∷ []))

unfoldable pub nibble : ℕ → Outcome ℕ
nibble c =
    if leb b'0' c && leb c b'9'
    then ok (c - b'0')
    else if leb b'a' c && leb c b'f'
    then ok (c - b'a' + 10)
    else if leb b'A' c && leb c b'F'
    then ok (c - b'A' + 10)
    else fail

-- The loop of `sl_hexstr_decode` with `n` bytes to go, from the character `i` on
unfoldable pub decode_loop : ℕ → ℕ → List ℕ → Outcome (List ℕ)
unfolding nibble
decode_loop zero i input = ok []
decode_loop (suc n) i input = do
  a ← byte_at input i
  hi ← nibble a
  b ← byte_at input (i + 1)
  lo ← nibble b
  rest ← decode_loop n (i + 2) input
  ok (u8 (bit_or (hi * 16) lo) ∷ rest)

-- `sl_hexstr_decode`: the bytes written at `out`.
unfoldable pub decode : List ℕ → ℕ → Outcome (List ℕ)
unfolding decode_loop
decode input expected_len = do
  out ← decode_loop expected_len 0 input
  last ← byte_at input (2 * expected_len)
  reject_if (not (last == 0))
  ok out
