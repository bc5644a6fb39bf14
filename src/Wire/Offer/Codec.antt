-- ===== src/Wire/Offer/Codec.antt =====
-- Offers on the wire.
use securelink.Common.{
  ℕ, zero, suc, ◌+◌, ◌*◌, ◌^◌, ◌≤◌, ◌<◌, ◌≡◌, refl, sym, ap, ◌∙◌, ◌⊎◌, inl, inr, false, ◌||◌, List,
  [], ◌∷◌, ◌++◌, append_assoc, append-nil, arith, ltb, leb, if◌then◌else◌, Bool-cases, length,
  length-append, All, ok, fail,
}
use securelink.Bytes.{u8, byte_at, pack_u16}
use securelink.Bytes.Reads.{u8_at, u16_at, byte_at-ok, unpack_u16-ok, unpack_u16-eq}
use securelink.Wire.Offer.{
  list_max, list_has, list_add, pairs, list_encode, kept, decode_loop, list_decode,
}

-- A list that `sl_version_list_add` can make: no version twice, no more than eight.
abbrev pub NoDup : List ℕ → Type 0
NoDup [] = Unit
NoDup (v ∷ vs) = (list_has vs v ≡ false) × NoDup vs

pub record IsOffer (l : List ℕ) : Type 0 where
  pub distinct : NoDup l
  pub short : length l ≤ list_max

list_has-append :
    (xs ys : List ℕ) (v : ℕ) → list_has (xs ++ ys) v ≡ (list_has xs v || list_has ys v)
unfolding list_has
list_has-append [] ys v = refl
list_has-append (x ∷ xs) ys v = ground (arith, list_has-append xs ys v)

NoDup-snoc : (l : List ℕ) (v : ℕ) → NoDup l → list_has l v ≡ false → NoDup (l ++ (v ∷ []))
unfolding list_has
NoDup-snoc [] v d h = (refl, tt)
NoDup-snoc (x ∷ xs) v d h =
    (ground (arith, d.0, list_has-append xs (v ∷ []) x), NoDup-snoc xs v d.1 (ground arith))

NoDup-middle : (xs : List ℕ) (v : ℕ) (ys : List ℕ) → NoDup (xs ++ (v ∷ ys)) → list_has xs v ≡ false
unfolding list_has
NoDup-middle [] v ys d = refl
NoDup-middle (x ∷ xs) v ys d =
    ground (arith, list_has-append xs (v ∷ ys) x, NoDup-middle xs v ys d.1)

-- What the loop does to a list with one more version.
abbrev added : List ℕ → ℕ → List ℕ
added l v = kept l (list_add l v)

added_lem :
    (l : List ℕ) (v : ℕ)
    → added l v ≡ (if leb list_max (length l) then l else if list_has l v then l else l ++ (v ∷ []))
unfolding list_add kept
added_lem l v = ground arith

short_of : (l : List ℕ) → leb list_max (length l) ≡ false → length l < list_max
short_of l h = ground (arith, h)

added-IsOffer : (l : List ℕ) (v : ℕ) → IsOffer l → IsOffer (added l v)
added-IsOffer l v o = elim (Bool-cases (leb list_max (length l))) [
  | inl full ↦ rw (added_lem l v, full) o
  | inr room ↦ elim (Bool-cases (list_has l v)) [
    | inl there ↦ rw (added_lem l v, room, there) o
    | inr new ↦
        rw (added_lem l v, room, new)
          (record {
            distinct = NoDup-snoc l v o.distinct new;
            short = omega (arith, short_of l room, length-append l (v ∷ []));
          })
  ]
]

decode_loop-IsOffer :
    (input : List ℕ) (k i : ℕ) (l : List ℕ)
    → IsOffer l
    → 1 + 2 * (i + k) ≤ length input
    → (l' : List ℕ) × (decode_loop input k i l ≡ ok l') × IsOffer l'
unfolding decode_loop
decode_loop-IsOffer input zero i l o h = (l, refl, o)
decode_loop-IsOffer input (suc k) i l o h =
    let v = u16_at input (1 + 2 * i) in
    let (l', e, o') =
      decode_loop-IsOffer input k (suc i) (added l v) (added-IsOffer l v o) (omega arith) in
    (l', rw (decode_loop, unpack_u16-ok input (1 + 2 * i) (omega arith)) e, o')

-- Whatever the input: `sl_version_list_decode` (and `sl_cipher_list_decode`, which is the same code)
-- reads no byte outside it, and refuses it or makes of it a list of at most eight, none of them
-- twice.
pub list_decode-total :
    (input : List ℕ)
    → (list_decode input ≡ fail) ⊎ ((l : List ℕ) × (list_decode input ≡ ok l) × IsOffer l)
unfolding list_decode
list_decode-total input =
    let count = u8_at input 0 in
    elim (Bool-cases (ltb (length input) 1)) [
      | inl none_read ↦ inl (rw (list_decode, none_read) refl)
      | inr some_read ↦
          let first = byte_at-ok input 0 (ground (arith, some_read)) in
          elim (Bool-cases (ltb list_max count)) [
            | inl many ↦ inl (rw (list_decode, some_read, first, many) refl)
            | inr few ↦ elim (Bool-cases (ltb (length input) (1 + count * 2))) [
              | inl cut ↦ inl (rw (list_decode, some_read, first, few, cut) refl)
              | inr whole ↦
                  let fits : 1 + 2 * (0 + count) ≤ length input = ground (arith, whole) in
                  let (l, e, o) =
                    decode_loop-IsOffer input count 0 []
                      (record { distinct = tt; short = omega arith }) fits in
                  inr (l, rw (list_decode, some_read, first, few, whole) e, o)
            ]
          ]
    ]

length-pairs : (vs : List ℕ) → length (pairs vs) ≡ length vs * 2
unfolding pairs pack_u16
length-pairs [] = refl
length-pairs (v ∷ vs) = omega (arith, length-pairs vs)

decode_loop-pairs :
    (input front vs rest : List ℕ) (i : ℕ) (l : List ℕ)
    → input ≡ front ++ (pairs vs ++ rest)
    → length front ≡ 1 + 2 * i
    → All (λ v. v < 2 ^ 16) vs
    → NoDup (l ++ vs)
    → length (l ++ vs) ≤ list_max
    → decode_loop input (length vs) i l ≡ ok (l ++ vs)
unfolding decode_loop pairs
decode_loop-pairs input front [] rest i l e hf hv d s = ap ok (sym (append-nil l))
decode_loop-pairs input front (v ∷ vs) rest i l e hf hv d s =
    let back = pairs vs ++ rest in
    let split : input ≡ front ++ (pack_u16 v ++ back) =
      e ∙ ap (λ (t : List ℕ). front ++ t) (append_assoc (pack_u16 v) (pairs vs) rest) in
    let read = unpack_u16-eq input front back v (1 + 2 * i) hv.0 split (sym hf) in
    let add : added l v ≡ l ++ (v ∷ []) =
      ground (arith, added_lem l v, NoDup-middle l v vs d, length-append l (v ∷ vs)) in
    let shape : l ++ (v ∷ vs) ≡ (l ++ (v ∷ [])) ++ vs = sym (append_assoc l (v ∷ []) vs) in
    let next =
      decode_loop-pairs input (front ++ pack_u16 v) vs rest (suc i) (l ++ (v ∷ []))
        (split ∙ sym (append_assoc front (pack_u16 v) back))
        (unfold pack_u16 in omega (arith, hf, length-append front (pack_u16 v))) hv.1
        (rw (← shape) d) (rw (← shape) s) in
    rw (decode_loop, read, add) (next ∙ ap ok (sym shape))

-- `sl_version_list_decode` reads back the list that was encoded, of at most eight versions of 16
-- bits and none twice, whatever comes behind it; `sl_cipher_list_decode` is the same code.
pub list_decode-encode :
    (l : List ℕ) (out_cap : ℕ) (wire rest : List ℕ)
    → IsOffer l
    → All (λ v. v < 2 ^ 16) l
    → list_encode l out_cap ≡ ok wire
    → list_decode (wire ++ rest) ≡ ok l
unfolding list_encode list_decode
list_decode-encode l out_cap wire rest o small e =
    let count = u8 (length l) in
    let short = o.short in
    let same : count ≡ length l = omega arith in
    let shape : wire ≡ count ∷ pairs l = ground arith in
    let first : byte_at (count ∷ (pairs l ++ rest)) 0 ≡ ok count = unfold byte_at in refl in
    let loop =
      decode_loop-pairs (count ∷ (pairs l ++ rest)) (count ∷ []) l rest 0 [] refl refl small
        o.distinct o.short in
    ground (
      arith,
      ap (λ (w : List ℕ). w ++ rest) shape,
      first,
      same,
      ap (λ (k : ℕ). decode_loop (count ∷ (pairs l ++ rest)) k 0 []) same,
      loop,
      length-append (pairs l) rest,
      length-pairs l,
    )
