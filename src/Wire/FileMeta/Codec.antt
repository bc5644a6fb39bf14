-- ===== src/Wire/FileMeta/Codec.antt =====
-- File metadata on the wire.
use native.Mathlib.Nat.{mod-lt, div-add-mod}
use securelink.Common.{
  ℕ, ◌+◌, ◌-◌, ◌*◌, ◌/◌, ◌^◌, ◌≤◌, ◌<◌, ◌≡◌, refl, sym, ap, ◌∙◌, ◌≢◌, ◌⊎◌, inl, inr, Bool, true,
  false, not, List, [], ◌++◌, append_assoc, append-nil, arith, ltb, Bool-cases, length, take, drop,
  replicate, length-append, Outcome, ok, fault, ◌>>=◌, ◌>>◌, reject_if,
}
use securelink.Bytes.{bytes_at, pack_u16, pack_u32, pack_u64, unpack_u16, unpack_u32, unpack_u64}
use securelink.Bytes.Reads.{
  u16_at, u32_at, u64_at, unpack_u16-ok, unpack_u32-ok, unpack_u64-ok, bytes_at-ok, bytes_at-eq,
  unpack_u16-eq, unpack_u32-eq, unpack_u64-eq,
}
use securelink.Wire.FileMeta.{
  fixed_len, name_max, FileMeta, chars_ok, dots_ahead, expected_chunks, meta_validate, meta_pack,
  meta_unpack,
}

-- The fields fit their C types.
pub record FitsMeta (m : FileMeta) : Type 0 where
  pub total_size : m.total_size < 2 ^ 64
  pub chunk_size : m.chunk_size < 2 ^ 32
  pub total_chunks : m.total_chunks < 2 ^ 32
  pub mode : m.mode < 2 ^ 32
  pub mtime_s : m.mtime_s < 2 ^ 32
  pub sha256 : length m.sha256 ≡ 32

name_len : (m : FileMeta) → meta_validate m ≡ true → length m.name ≤ name_max
unfolding meta_validate
name_len m h = ground arith

pack_inverse :
    (m : FileMeta) (out_cap : ℕ) (wire : List ℕ)
    → FitsMeta m
    → meta_pack m out_cap ≡ ok wire
    → (meta_validate m ≡ true)
      × (wire
          ≡ pack_u64 m.total_size
            ++ (pack_u32 m.chunk_size
                ++ (pack_u32 m.total_chunks
                    ++ (pack_u32 m.mode
                        ++ (pack_u32 m.mtime_s
                            ++ (m.sha256
                                ++ (pack_u16 (length m.name) ++ (replicate 24 0 ++ m.name))))))))
unfolding meta_pack
pack_inverse m out_cap wire f e = ground (
  arith,
  bytes_at-eq m.sha256 [] m.sha256 [] 0 32 (sym (append-nil m.sha256)) refl (sym f.sha256),
)

-- What each read finds behind a prefix of the packed metadata.
meta_reads :
    (m : FileMeta) (input rest : List ℕ)
    → FitsMeta m
    → length m.name < 2 ^ 16
    → input
      ≡ (pack_u64 m.total_size
          ++ (pack_u32 m.chunk_size
              ++ (pack_u32 m.total_chunks
                  ++ (pack_u32 m.mode
                      ++ (pack_u32 m.mtime_s
                          ++ (m.sha256
                              ++ (pack_u16 (length m.name) ++ (replicate 24 0 ++ m.name))))))))
        ++ rest
    → (unpack_u64 input 0 ≡ ok m.total_size)
      × (unpack_u32 input 8 ≡ ok m.chunk_size)
      × (unpack_u32 input 12 ≡ ok m.total_chunks)
      × (unpack_u32 input 16 ≡ ok m.mode)
      × (unpack_u32 input 20 ≡ ok m.mtime_s)
      × (bytes_at input 24 32 ≡ ok m.sha256)
      × (unpack_u16 input 56 ≡ ok (length m.name))
      × (bytes_at input fixed_len (length m.name) ≡ ok m.name)
      × (length input ≡ fixed_len + (length m.name + length rest))
unfolding pack_u64 pack_u32 pack_u16
meta_reads m input rest f len e =
    let name = m.name in
    let n = length name in
    let ts = pack_u64 m.total_size in
    let cz = pack_u32 m.chunk_size in
    let tc = pack_u32 m.total_chunks in
    let mo = pack_u32 m.mode in
    let mt = pack_u32 m.mtime_s in
    let nl = pack_u16 n in
    let zeros : List ℕ = replicate 24 0 in
    let front = ts ++ (cz ++ (tc ++ (mo ++ mt))) in
    let ends = nl ++ (zeros ++ (name ++ rest)) in
    let back = m.sha256 ++ ends in
    let whole : input ≡ front ++ back =
      e ∙ ap (λ (t : List ℕ). front ++ t) (append_assoc m.sha256 (nl ++ (zeros ++ name)) rest) in
    let lf : length front ≡ 24 = refl in
    let lz : length (nl ++ zeros) ≡ 26 = refl in
    let mid = m.sha256 ++ (nl ++ zeros) in
    let lm = length-append m.sha256 (nl ++ zeros) in
    let last : input ≡ (front ++ mid) ++ (name ++ rest) =
      whole
      ∙ ap (λ (t : List ℕ). front ++ t) (sym (append_assoc m.sha256 (nl ++ zeros) (name ++ rest)))
      ∙ sym (append_assoc front mid (name ++ rest)) in
    let l_sha : 56 ≡ length (front ++ m.sha256) =
      omega (arith, lf, f.sha256, length-append front m.sha256) in
    let l_name : fixed_len ≡ length (front ++ mid) =
      omega (arith, lf, lz, lm, f.sha256, length-append front mid) in
    (
      unpack_u64-eq input [] (cz ++ (tc ++ (mo ++ (mt ++ back)))) m.total_size 0 f.total_size whole
          refl,
      unpack_u32-eq input ts (tc ++ (mo ++ (mt ++ back))) m.chunk_size 8 f.chunk_size whole refl,
      unpack_u32-eq input (ts ++ cz) (mo ++ (mt ++ back)) m.total_chunks 12 f.total_chunks whole
          refl,
      unpack_u32-eq input (ts ++ (cz ++ tc)) (mt ++ back) m.mode 16 f.mode whole refl,
      unpack_u32-eq input (ts ++ (cz ++ (tc ++ mo))) back m.mtime_s 20 f.mtime_s whole refl,
      bytes_at-eq input front m.sha256 ends 24 32 whole refl (sym f.sha256),
      unpack_u16-eq input (front ++ m.sha256) (zeros ++ (name ++ rest)) n 56 len
          (whole ∙ sym (append_assoc front m.sha256 ends)) l_sha,
      bytes_at-eq input (front ++ mid) name rest fixed_len n last l_name refl,
      ap (λ (t : List ℕ). length t) last
          ∙ omega
              (arith, l_name, length-append (front ++ mid) (name ++ rest), length-append name rest),
    )

-- `sl_file_meta_unpack` reads back the metadata that was packed, whose fields fit their C types,
-- whatever comes behind it.
pub meta_unpack-pack :
    (m : FileMeta) (out_cap : ℕ) (wire rest : List ℕ)
    → FitsMeta m
    → meta_pack m out_cap ≡ ok wire
    → meta_unpack (wire ++ rest) ≡ ok m
unfolding meta_unpack
meta_unpack-pack m out_cap wire rest f e =
    let (valid, shape) = pack_inverse m out_cap wire f e in
    let short = name_len m valid in
    ground (
      arith,
      valid,
      meta_reads m (wire ++ rest) rest f (omega arith) (ap (λ (w : List ℕ). w ++ rest) shape),
    )

accepted :
    (m : FileMeta)
    → m.total_size + m.chunk_size < 2 ^ 64
    → meta_validate m ≡ true
    → (0 < m.chunk_size)
      × (((m.total_size ≡ 0) × (m.total_chunks ≡ 0))
          ⊎ ((0 < m.total_size)
              × (m.total_chunks ≡ (m.total_size + m.chunk_size - 1) / m.chunk_size)))
      × (chars_ok m.name ≡ true)
      × (dots_ahead m.name ≡ false)
unfolding meta_validate expected_chunks
accepted m small h = ground arith

-- What the metadata that `sl_file_meta_validate` accepts says, where the size and a chunk together
-- stay below 2 ^ 64: the chunks hold the file, and one fewer would not; the name has no character
-- that is not allowed and does not begin with two dots.
pub meta_validate-covers :
    (m : FileMeta)
    → m.total_size + m.chunk_size < 2 ^ 64
    → meta_validate m ≡ true
    → (m.total_size ≤ m.total_chunks * m.chunk_size)
      × (m.total_chunks * m.chunk_size < m.total_size + m.chunk_size)
      × (chars_ok m.name ≡ true)
      × (dots_ahead m.name ≡ false)
meta_validate-covers m small h =
    let (pos, count, chars, dots) = accepted m small h in
    let size = m.chunk_size in
    elim count [
      | inl (empty, no_chunks) ↦
          let none : m.total_chunks * size ≡ 0 * size = ap (λ (k : ℕ). k * size) no_chunks in
          (omega (arith, none), omega (arith, none), chars, dots)
      | inr (some_bytes, quotient) ↦
          let n = m.total_size + size - 1 in
          let whole : m.total_chunks * size ≡ n / size * size = ap (λ (k : ℕ). k * size) quotient in
          let split = div-add-mod n size in
          let left = mod-lt n pos in
          (omega (arith, whole, split, left), omega (arith, whole, split, left), chars, dots)
    ]

ok-ne-fault : (m : FileMeta) → ok m ≢ fault
ok-ne-fault m = ground arith

reject-ne-fault :
    (b : Bool) (o : Outcome FileMeta) → (b ≡ false → o ≢ fault) → (reject_if b >> o) ≢ fault
reject-ne-fault true o h = λ p. ground (arith, p)
reject-ne-fault false o h = h refl

in_reach : (a b : ℕ) → ltb a b ≡ false → b ≤ a
in_reach a b h = ground arith

name_read-ne-fault :
    (input : List ℕ) (n : ℕ) (k : List ℕ → FileMeta)
    → (reject_if (ltb name_max n)
        >> (reject_if (ltb (length input) (fixed_len + n))
            >> (bytes_at input fixed_len n >>= λ name.
                reject_if (not (meta_validate (k name))) >> ok (k name))))
      ≢ fault
name_read-ne-fault input n k = reject-ne-fault (ltb name_max n) _ (λ small.
    reject-ne-fault (ltb (length input) (fixed_len + n)) _ (λ whole.
      rw (bytes_at-ok input fixed_len n (in_reach (length input) (fixed_len + n) whole)) (
        reject-ne-fault (not (meta_validate (k (take n (drop fixed_len input))))) _
          (λ valid. ok-ne-fault (k (take n (drop fixed_len input)))))))

-- Whatever the input, `sl_file_meta_unpack` reads no byte outside it.
pub meta_unpack-ne-fault : (input : List ℕ) → meta_unpack input ≢ fault
unfolding meta_unpack
meta_unpack-ne-fault input = elim (Bool-cases (ltb (length input) fixed_len)) [
  | inl short ↦ rw (meta_unpack, short) (ground arith)
  | inr enough ↦
      let long : fixed_len ≤ length input = ground (arith, enough) in
      rw
        (
          meta_unpack,
          enough,
          unpack_u64-ok input 0 (omega arith),
          unpack_u32-ok input 8 (omega arith),
          unpack_u32-ok input 12 (omega arith),
          unpack_u32-ok input 16 (omega arith),
          unpack_u32-ok input 20 (omega arith),
          bytes_at-ok input 24 32 (omega arith),
          unpack_u16-ok input 56 (omega arith),
        )
        (name_read-ne-fault input (u16_at input 56) (λ name. record {
          total_size = u64_at input 0;
          chunk_size = u32_at input 8;
          total_chunks = u32_at input 12;
          mode = u32_at input 16;
          mtime_s = u32_at input 20;
          sha256 = take 32 (drop 24 input);
          name = name;
        }))
]

-- What `sl_file_meta_unpack` accepts passes `sl_file_meta_validate`.
pub meta_unpack-valid :
    (input : List ℕ) (m : FileMeta) → meta_unpack input ≡ ok m → meta_validate m ≡ true
unfolding meta_unpack
meta_unpack-valid input m e = ground (
  arith,
  unpack_u64-ok input 0,
  unpack_u32-ok input 8,
  unpack_u32-ok input 12,
  unpack_u32-ok input 16,
  unpack_u32-ok input 20,
  bytes_at-ok input 24 32,
  unpack_u16-ok input 56,
  bytes_at-ok input fixed_len (u16_at input 56),
)
