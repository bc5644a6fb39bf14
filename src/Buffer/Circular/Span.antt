-- ===== src/Buffer/Circular/Span.antt =====
-- What the copies do to the bytes of a circular buffer, in the order in which they are read.
use native.Mathlib.Decide.{dec_lt}
use native.Mathlib.Nat.{mod-add-mod}
use securelink.Memory.{write_at, length-write_at, get_or-write_at}
use securelink.Common.Index.{get_or-take, get_or-drop, get_or-append, list_ext, mod_once}
use securelink.Common.{
  ℕ, ◌+◌, ◌-◌, ◌%◌, ◌≤◌, ◌<◌, ◌≡◌, sym, ap, ◌∙◌, List, ◌++◌, append-nil, arith, ltb, if◌then◌else◌,
  length, get_or, take, drop, length-append, length-take, length-drop, take_all, take-append_le,
  take-append_ge, take-take,
}
use securelink.Buffer.Circular.{first_part, copy_in, copy_out, span}

module _ (buf : List ℕ) (cap : ℕ) (full : length buf ≡ cap) where
  pub length-span : (pos n : ℕ) → pos ≤ cap → n ≤ cap → length (span buf pos n) ≡ n
  unfolding span
  length-span pos n hp hn = omega (
    arith,
    length-take n (drop pos buf ++ take pos buf),
    length-append (drop pos buf) (take pos buf),
    length-drop pos buf,
    length-take pos buf,
  )

  pub get_or-span :
      (pos n i : ℕ)
      → pos < cap
      → i < n
      → n ≤ cap
      → get_or (span buf pos n) i 0
        ≡ (if ltb (pos + i) cap then get_or buf (pos + i) 0 else get_or buf (pos + i - cap) 0)
  unfolding span
  get_or-span pos n i hp hi hn = ground (
    arith,
    get_or-take 0 n i (drop pos buf ++ take pos buf) hi,
    get_or-append 0 (drop pos buf) (take pos buf) i,
    length-drop pos buf,
    get_or-drop 0 pos i buf,
    get_or-take 0 pos (i - (cap - pos)) buf,
  )

  -- Reading out the two parts gives the bytes in order.
  pub copy_out_lem : (pos n : ℕ) → pos < cap → n ≤ cap → copy_out buf cap pos n ≡ span buf pos n
  unfolding copy_out span
  copy_out_lem pos n hp hn = elim (dec_lt (cap - pos) n) [
    | yes two ↦ ground (
      arith,
      length-drop pos buf,
      take_all (cap - pos) (drop pos buf),
      take-append_ge n (drop pos buf) (take pos buf),
      take-take (n - (cap - pos)) pos buf,
    )
    | no one ↦ ground (
      arith,
      length-drop pos buf,
      take-append_le n (drop pos buf) (take pos buf),
      append-nil (take n (drop pos buf)),
    )
  ]

  pub take-span : (pos n m : ℕ) → n ≤ m → take n (span buf pos m) ≡ span buf pos n
  unfolding span
  take-span pos n m h = take-take n m (drop pos buf ++ take pos buf) h

  -- Behind the first `n` bytes stand the others.
  pub span-advance :
      (pos n used : ℕ)
      → pos < cap
      → n ≤ used
      → used ≤ cap
      → span buf ((pos + n) % cap) (used - n) ≡ drop n (span buf pos used)
  span-advance pos n used hp hn hu =
      list_ext 0 _ _
        (omega (
          arith,
          length-span ((pos + n) % cap) (used - n) (omega arith) (omega arith),
          length-drop n (span buf pos used),
          length-span pos used (omega arith) hu,
        ))
        (λ i hi. ground (
          arith,
          length-span ((pos + n) % cap) (used - n),
          mod_once (pos + n) cap,
          get_or-span ((pos + n) % cap) (used - n) i,
          get_or-drop 0 n i (span buf pos used),
          get_or-span pos used (n + i),
        ))

-- Each byte of the buffer after a copy in of no more bytes than it holds.
get_or-copy_in :
    (buf bytes : List ℕ) (cap head i : ℕ)
    → length buf ≡ cap
    → head < cap
    → length bytes ≤ cap
    → i < cap
    → get_or (copy_in buf cap head bytes) i 0 ≡ (
        if ltb i head
        then (if ltb (i + cap) (head + length bytes)
            then get_or bytes (i + cap - head) 0
            else get_or buf i 0)
        else if ltb i (head + length bytes)
        then get_or bytes (i - head) 0
        else get_or buf i 0)
unfolding copy_in
get_or-copy_in buf bytes cap head i full hh fits hi = elim (dec_lt (cap - head) (length bytes)) [
  | yes two ↦
      let first = cap - head in
      let mid = write_at buf head (take first bytes) in
      ground (
        arith,
        length-take first bytes,
        length-drop first bytes,
        length-write_at buf head (take first bytes),
        get_or-write_at mid 0 (drop first bytes) i,
        get_or-write_at buf head (take first bytes) i,
        get_or-take 0 first (i - head) bytes,
        get_or-drop 0 first i bytes,
      )
  | no one ↦ ground (arith, take_all (length bytes) bytes, get_or-write_at buf head bytes i)
]

pub length-copy_in :
    (buf bytes : List ℕ) (cap head : ℕ) → length (copy_in buf cap head bytes) ≡ length buf
unfolding copy_in
length-copy_in buf bytes cap head =
    let first = first_part cap head (length bytes) in
    let mid = write_at buf head (take first bytes) in
    ground
      (arith, length-write_at buf head (take first bytes), length-write_at mid 0 (drop first bytes))

-- Bytes copied in behind the used ones join them at the end.
pub span-copy_in :
    (buf bytes : List ℕ) (cap pos used head : ℕ)
    → length buf ≡ cap
    → pos < cap
    → used + length bytes ≤ cap
    → head ≡ (pos + used) % cap
    → span (copy_in buf cap head bytes) pos (used + length bytes) ≡ span buf pos used ++ bytes
span-copy_in buf bytes cap pos used head full hp fits e =
    let buf' = copy_in buf cap head bytes in
    let n = length bytes in
    let full' : length buf' ≡ cap = length-copy_in buf bytes cap head ∙ full in
    list_ext 0 _ _
      (omega (
        arith,
        length-span buf' cap full' pos (used + n) (omega arith) fits,
        length-append (span buf pos used) bytes,
        length-span buf cap full pos used (omega arith) (omega arith),
      ))
      (λ i hi. ground (
        arith,
        e,
        mod_once (pos + used) cap,
        length-span buf' cap full' pos (used + n),
        length-span buf cap full pos used,
        get_or-span buf' cap full' pos (used + n) i,
        get_or-copy_in buf bytes cap head (pos + i),
        get_or-copy_in buf bytes cap head (pos + i - cap),
        get_or-append 0 (span buf pos used) bytes i,
        get_or-span buf cap full pos used i,
      ))

-- The write index moves with a write, and stays where it is under a read.
pub move_head : (cap tail used n : ℕ) → ((tail + used) % cap + n) % cap ≡ (tail + (used + n)) % cap
move_head cap tail used n = mod-add-mod (tail + used) cap n ∙ ap (λ k. k % cap) (omega arith)

pub move_tail :
    (cap tail used n : ℕ) → n ≤ used → (tail + used) % cap ≡ ((tail + n) % cap + (used - n)) % cap
move_tail cap tail used n h =
    sym (mod-add-mod (tail + n) cap (used - n) ∙ ap (λ k. k % cap) (omega arith))
