-- ===== src/Ident/Hexstr/Codec.antt =====
-- Hexadecimal there and back.
use securelink.Common.{
  ℕ, ◌+◌, ◌*◌, ◌/◌, ◌%◌, ◌<◌, ◌≡◌, refl, true, ap, sym, ◌∙◌, List, [], ◌∷◌, ◌++◌, ltb, ◌==◌, length,
  All, bit_or, ok, arith, length-append, append_assoc, Bool,
}
use securelink.Common.Tables.{all_below, all_below_lem}
use securelink.Common.Bits.{bit_or-shift}
use securelink.Bytes.{u8, IsByte}
use securelink.Bytes.Reads.{byte_at-middle}
use securelink.Ident.Hexstr.{digit, encode_loop, encode, nibble, decode_loop, decode}

-- `nibble` reads the digit back.
is_read_back : ℕ → Bool
is_read_back n = elim (nibble (digit n)) [ ok m ↦ m == n | _ ↦ ltb 1 0 ]

digit_table : all_below 16 is_read_back ≡ true
unfolding all_below is_read_back nibble digit
digit_table = refl

pub nibble-digit : (n : ℕ) → n < 16 → nibble (digit n) ≡ ok n
unfolding is_read_back
nibble-digit n h = ground (arith, all_below_lem 16 is_read_back n digit_table)

join_nibbles : (b : ℕ) → IsByte b → u8 (bit_or (b / 16 % 16 * 16) (b % 16)) ≡ b
join_nibbles b h = omega (arith, bit_or-shift 4 (b / 16 % 16) (b % 16) (omega arith))

pub digit-injective : (m n : ℕ) → m < 16 → n < 16 → digit m ≡ digit n → m ≡ n
digit-injective m n hm hn e = ground (arith, nibble-digit m, nibble-digit n, ap nibble e)

length-encode_loop : (bs : List ℕ) → length (encode_loop bs) ≡ length bs * 2
unfolding encode_loop
length-encode_loop [] = refl
length-encode_loop (b ∷ bs) = omega (arith, length-encode_loop bs)

-- The characters behind `front` are read as the bytes that they were made of.
decode_loop-encode :
    (bs front back : List ℕ) (i n : ℕ)
    → All IsByte bs
    → i ≡ length front
    → n ≡ length bs
    → decode_loop n i (front ++ (encode_loop bs ++ back)) ≡ ok bs
unfolding decode_loop encode_loop
decode_loop-encode [] front back i n h e f = rw f refl
decode_loop-encode (b ∷ bs) front back i n h e f =
    let hi = digit (b / 16 % 16) in
    let lo = digit (b % 16) in
    let tail = encode_loop bs ++ back in
    let two_on : i + 2 ≡ length (front ++ (hi ∷ lo ∷ [])) =
      omega (arith, length-append front (hi ∷ lo ∷ [])) in
    let rest : decode_loop (length bs) (i + 2) (front ++ (hi ∷ lo ∷ tail)) ≡ ok bs =
      ap (decode_loop (length bs) (i + 2)) (sym (append_assoc front (hi ∷ lo ∷ []) tail))
      ∙ decode_loop-encode bs (front ++ (hi ∷ lo ∷ [])) back (i + 2) (length bs) h.1 two_on refl in
    rw (
      f,
      byte_at-middle front (lo ∷ tail) hi i e,
      nibble-digit (b / 16 % 16) (omega arith),
      ← append_assoc front (hi ∷ []) (lo ∷ tail),
      byte_at-middle (front ++ (hi ∷ [])) tail lo (i + 1)
          (omega (arith, length-append front (hi ∷ []))),
      nibble-digit (b % 16) (omega arith),
      append_assoc front (hi ∷ []) (lo ∷ tail),
      rest,
      join_nibbles b h.0,
    )

-- What `sl_hexstr_encode` writes, `sl_hexstr_decode` reads back as the same bytes.
pub decode-encode :
    (bs text : List ℕ) (out_cap : ℕ)
    → All IsByte bs
    → encode bs out_cap ≡ ok text
    → decode text (length bs) ≡ ok bs
unfolding encode decode
decode-encode bs text out_cap h e =
    let written : text ≡ encode_loop bs ++ (0 ∷ []) = ground arith in
    let last =
      byte_at-middle (encode_loop bs) [] 0 (2 * length bs) (omega (arith, length-encode_loop bs)) in
    rw (written, decode_loop-encode bs [] (0 ∷ []) 0 (length bs) h refl refl, last)
