-- ===== src/Wire/Extensions/Codec.antt =====
-- Extensions encoded and decoded.
use securelink.Common.{
  ℕ, zero, suc, ◌+◌, ◌^◌, ◌≤◌, ◌<◌, ◌≡◌, refl, sym, ap, ◌∙◌, ◌⊎◌, inl, inr, true, false, ◌&&◌, List,
  [], ◌∷◌, ◌++◌, append_assoc, append-nil, arith, ltb, leb, Bool-cases, length, take, drop,
  length-append, All, All-append, Outcome, ok, fail, fault,
}
use securelink.Bytes.{bytes_at, pack_u16, unpack_u16}
use securelink.Bytes.Reads.{u16_at, unpack_u16-ok, bytes_at-ok, bytes_at-eq, unpack_u16-eq}
use securelink.Wire.Extensions.{
  max_count, max_body, Extension, inner_len, items, ext_encode, keep_item, decode_items, ext_decode,
}

abbrev pub FitsItem : Extension → Type 0
FitsItem e = length e.body ≤ max_body

-- A list that `sl_extensions_add` can make.
pub record IsList (es : List Extension) : Type 0 where
  pub each : All FitsItem es
  pub few : length es ≤ max_count

keep_item-IsList :
    (es : List Extension) (kind : ℕ) (body : List ℕ) → IsList es → IsList (keep_item es kind body)
unfolding keep_item
keep_item-IsList es kind body v =
    elim (Bool-cases (leb (length body) max_body && ltb (length es) max_count)) [
      | inl fits ↦
          let e : Extension = record { kind = kind; body = body } in
          let (small, room) = both fits in
          rw (keep_item, fits)
            (record {
              each = All-append FitsItem es (e ∷ []) v.each (small, tt);
              few = omega (arith, length-append es (e ∷ []), room);
            })
      | inr skipped ↦ rw (keep_item, skipped) v
    ]
  where
    both :
        (leb (length body) max_body && ltb (length es) max_count) ≡ true
        → (length body ≤ max_body) × (length es < max_count)
    both t = ground arith

decode_items-total :
    (fuel : ℕ) (input : List ℕ) (end off : ℕ) (es : List Extension)
    → IsList es
    → end ≤ length input
    → end ≤ off + fuel
    → (decode_items fuel input end off es ≡ fail)
      ⊎ ((es' : List Extension) × (decode_items fuel input end off es ≡ ok es') × IsList es')
unfolding decode_items
decode_items-total zero input end off es v h f = inr (es, ground arith, v)
decode_items-total (suc fuel) input end off es v h f = elim (Bool-cases (ltb end (off + 4))) [
  | inl over ↦ inr (es, rw over refl, v)
  | inr more ↦
      let in_reach : off + 4 ≤ end = ground (arith, more) in
      let kind = u16_at input off in
      let len = u16_at input (off + 2) in
      let rk = unpack_u16-ok input off (omega arith) in
      let rl = unpack_u16-ok input (off + 2) (omega arith) in
      elim (Bool-cases (ltb end (off + 4 + len))) [
        | inl cut ↦ inl (rw (more, rk, rl, cut) refl)
        | inr whole ↦
            let fits : off + 4 + len ≤ end = ground (arith, whole) in
            let body = take len (drop (off + 4) input) in
            let rb = bytes_at-ok input (off + 4) len (omega arith) in
            rw (more, rk, rl, whole, rb)
              (decode_items-total fuel input end (off + 4 + len) (keep_item es kind body)
                (keep_item-IsList es kind body v) h (omega arith))
      ]
]

-- Whatever the input: `sl_extensions_decode` ends, reads no byte outside it, and refuses it or makes
-- of it a list of at most sixteen extensions with bodies of at most 512 bytes.
pub ext_decode-total :
    (input : List ℕ)
    → (ext_decode input ≡ fail) ⊎ ((es : List Extension) × (ext_decode input ≡ ok es) × IsList es)
unfolding ext_decode
ext_decode-total input =
    let inner = u16_at input 0 in
    elim (Bool-cases (ltb (length input) 2)) [
      | inl short ↦ inl (rw (ext_decode, short) refl)
      | inr enough ↦
          let long : 2 ≤ length input = ground (arith, enough) in
          let read = unpack_u16-ok input 0 (omega arith) in
          elim (Bool-cases (ltb (length input) (inner + 2))) [
            | inl cut ↦ inl (rw (ext_decode, enough, read, cut) refl)
            | inr whole ↦
                let fits : inner + 2 ≤ length input = ground (arith, whole) in
                elim (decode_items-total inner input (2 + inner) 2 []
                  (record { each = tt; few = omega arith }) (omega arith) (omega arith)) [
                    | inl e ↦ inl (rw (ext_decode, enough, read, whole) e)
                    | inr (es, e, v) ↦ inr (es, rw (ext_decode, enough, read, whole) e, v)
                  ]
          ]
    ]

past_end : (end off : ℕ) → end ≡ off → ltb end (off + 4) ≡ true
past_end end off h = ground arith

keep_item_lem :
    (es : List Extension) (x : Extension)
    → FitsItem x
    → length es < max_count
    → keep_item es x.kind x.body ≡ es ++ (x ∷ [])
unfolding keep_item
keep_item_lem es x small room = ground arith

decode_items-items :
    (fuel : ℕ) (input front rest : List ℕ) (end off : ℕ) (es todo : List Extension)
    → input ≡ front ++ (items todo ++ rest)
    → off ≡ length front
    → end ≡ off + length (items todo)
    → end ≤ off + fuel
    → All (λ e. (e.kind < 2 ^ 16) × FitsItem e) todo
    → length es + length todo ≤ max_count
    → decode_items fuel input end off es ≡ ok (es ++ todo)
unfolding decode_items items pack_u16
decode_items-items zero input front rest end off es [] e ho he hf ht few =
    rw (decode_items, past_end end off (omega arith)) (ap ok (sym (append-nil es)))
decode_items-items (suc fuel) input front rest end off es [] e ho he hf ht few =
    rw (decode_items, past_end end off (omega arith)) (ap ok (sym (append-nil es)))
decode_items-items zero input front rest end off es (x ∷ todo) e ho he hf ht few =
    absurd (omega arith)
decode_items-items (suc fuel) input front rest end off es (x ∷ todo) e ho he hf ht few =
    let len = length x.body in
    let back = items todo ++ rest in
    let kb = pack_u16 x.kind in
    let lb = pack_u16 len in
    let ((hk, hb), ht') = ht in
    let size = length-append x.body (items todo) in
    let whole : input ≡ front ++ (kb ++ (lb ++ (x.body ++ back))) =
      e ∙ ap (λ (t : List ℕ). front ++ (kb ++ (lb ++ t))) (append_assoc x.body (items todo) rest) in
    let after = front ++ (kb ++ lb) in
    let front' = front ++ (kb ++ (lb ++ x.body)) in
    let more : ltb end (off + 4) ≡ false = ground (arith, size) in
    let in_end : ltb end (off + 4 + len) ≡ false = ground (arith, size) in
    let rk : unpack_u16 input off ≡ ok x.kind =
      unpack_u16-eq input front (lb ++ (x.body ++ back)) x.kind off hk whole ho in
    let rl : unpack_u16 input (off + 2) ≡ ok len =
      unpack_u16-eq input (front ++ kb) (x.body ++ back) len (off + 2) (omega arith)
        (whole ∙ sym (append_assoc front kb (lb ++ (x.body ++ back))))
        (omega (arith, length-append front kb)) in
    let rb : bytes_at input (off + 4) len ≡ ok x.body =
      bytes_at-eq input after x.body back (off + 4) len
        (whole ∙ sym (append_assoc front (kb ++ lb) (x.body ++ back)))
        (omega (arith, length-append front (kb ++ lb))) refl in
    let keep = keep_item_lem es x hb (omega arith) in
    let next =
      decode_items-items fuel input front' rest end (off + 4 + len) (es ++ (x ∷ [])) todo
        (whole ∙ sym (append_assoc front (kb ++ (lb ++ x.body)) back))
        (omega (arith, ho, length-append front (kb ++ (lb ++ x.body)))) (omega (arith, size))
        (omega arith) ht' (omega (arith, length-append es (x ∷ []))) in
    rw (decode_items, more, rk, rl, in_end, rb, keep) (next ∙ ap ok (append_assoc es (x ∷ []) todo))

inner_len_lem :
    (es : List Extension) (inner n : ℕ)
    → inner ≤ 0xffff
    → inner_len es inner ≡ ok n
    → (n ≡ inner + length (items es)) × (n ≤ 0xffff)
unfolding inner_len items pack_u16
inner_len_lem [] inner n h e = ground arith
inner_len_lem (x ∷ es) inner n h e =
    ground
      (arith, inner_len_lem es (inner + (4 + length x.body)) n, length-append x.body (items es))

-- What a successful `sl_extensions_encode` has written.
encode_inverse :
    (es : List Extension) (out_cap : ℕ) (wire : List ℕ)
    → ext_encode es out_cap ≡ ok wire
    → (wire ≡ pack_u16 (length (items es)) ++ items es) × (length (items es) ≤ 0xffff)
unfolding ext_encode
encode_inverse es out_cap wire e = read (inner_len es 0) refl
  where
    read :
        (r : Outcome ℕ)
        → inner_len es 0 ≡ r
        → (wire ≡ pack_u16 (length (items es)) ++ items es) × (length (items es) ≤ 0xffff)
    read (ok n) h = ground (arith, inner_len_lem es 0 n (omega arith) h, h)
    read fail h = absurd (ground (arith, h))
    read fault h = absurd (ground (arith, h))

-- `sl_extensions_decode` reads back the list that was encoded, of at most sixteen extensions with
-- types of 16 bits and bodies of at most 512 bytes, whatever comes behind it.
pub ext_decode-encode :
    (es : List Extension) (out_cap : ℕ) (wire rest : List ℕ)
    → IsList es
    → All (λ e. e.kind < 2 ^ 16) es
    → ext_encode es out_cap ≡ ok wire
    → ext_decode (wire ++ rest) ≡ ok es
unfolding ext_decode
ext_decode-encode es out_cap wire rest v small e =
    let n = length (items es) in
    let (shape, in_range) = encode_inverse es out_cap wire e in
    let input = wire ++ rest in
    let split : input ≡ pack_u16 n ++ (items es ++ rest) =
      ap (λ (w : List ℕ). w ++ rest) shape ∙ append_assoc (pack_u16 n) (items es) rest in
    let len : length input ≡ 2 + (n + length rest) =
      ap (λ (t : List ℕ). length t) split
      ∙ (unfold pack_u16 in omega (arith, length-append (items es) rest)) in
    let read = unpack_u16-eq input [] (items es ++ rest) n 0 (omega arith) split refl in
    let few = v.few in
    let loop =
      decode_items-items n input (pack_u16 n) rest (2 + n) 2 [] es split (unfold pack_u16 in refl)
        refl (omega arith) (zipped es small v.each) (omega arith) in
    ground (arith, len, read, loop)
  where
    zipped :
        (es : List Extension)
        → All (λ e. e.kind < 2 ^ 16) es
        → All FitsItem es
        → All (λ e. (e.kind < 2 ^ 16) × FitsItem e) es
    zipped [] k b = tt
    zipped (x ∷ es) k b = ((k.0, b.0), zipped es k.1 b.1)
