-- ===== src/Memory.antt =====
-- `memcpy` and `memmove` into a buffer that a C structure owns.
use securelink.Common.{
  ℕ, zero, suc, ◌+◌, ◌-◌, ◌≤◌, ◌≡◌, refl, ap, ◌∙◌, List, [], ◌∷◌, ◌++◌, arith, ltb, if◌then◌else◌,
  length, get_or, take,
}

-- `src` laid over the front of `dst`. What would pass its end is dropped; each caller's lemmas show
-- that nothing does.
unfoldable pub overlay : List ℕ → List ℕ → List ℕ
overlay [] src = []
overlay (d ∷ dst) [] = d ∷ dst
overlay (d ∷ dst) (s ∷ src) = s ∷ overlay dst src

-- `memcpy(dst + off, src, length src)`
unfoldable pub write_at : List ℕ → ℕ → List ℕ → List ℕ
unfolding overlay
write_at dst zero src = overlay dst src
write_at [] (suc off) src = []
write_at (d ∷ dst) (suc off) src = d ∷ write_at dst off src

length-overlay : (dst src : List ℕ) → length (overlay dst src) ≡ length dst
unfolding overlay
length-overlay [] src = refl
length-overlay (d ∷ dst) [] = refl
length-overlay (d ∷ dst) (s ∷ src) = ap suc (length-overlay dst src)

pub length-write_at :
    (dst : List ℕ) (off : ℕ) (src : List ℕ) → length (write_at dst off src) ≡ length dst
unfolding write_at
length-write_at [] zero src = length-overlay [] src
length-write_at (d ∷ dst) zero src = length-overlay (d ∷ dst) src
length-write_at [] (suc off) src = refl
length-write_at (d ∷ dst) (suc off) src = ap suc (length-write_at dst off src)

take-overlay :
    (dst src : List ℕ) → length src ≤ length dst → take (length src) (overlay dst src) ≡ src
unfolding overlay
take-overlay [] [] h = refl
take-overlay [] (s ∷ src) h = absurd (omega arith)
take-overlay (d ∷ dst) [] h = refl
take-overlay (d ∷ dst) (s ∷ src) h = ap (◌∷◌ s) (take-overlay dst src (omega arith))

-- Written inside the buffer, the bytes stand behind those in front of `off`.
pub take-write_at :
    (dst : List ℕ) (off : ℕ) (src : List ℕ)
    → off + length src ≤ length dst
    → take (off + length src) (write_at dst off src) ≡ take off dst ++ src
unfolding write_at
take-write_at dst zero src h =
    ap (λ n. take n (overlay dst src)) (omega arith) ∙ take-overlay dst src (omega arith)
take-write_at [] (suc off) src h = absurd (omega arith)
take-write_at (d ∷ dst) (suc off) src h =
    ap (λ n. take n (d ∷ write_at dst off src)) (suc_add off (length src))
    ∙ ap (◌∷◌ d) (take-write_at dst off src (omega arith))
  where
    suc_add : (m n : ℕ) → suc m + n ≡ suc (m + n)
    suc_add m n = omega arith

get_or-overlay :
    (dst src : List ℕ) (i : ℕ)
    → length src ≤ length dst
    → get_or (overlay dst src) i 0 ≡ (if ltb i (length src) then get_or src i 0 else get_or dst i 0)
unfolding overlay
get_or-overlay [] [] i h = ground arith
get_or-overlay [] (s ∷ src) i h = absurd (omega arith)
get_or-overlay (d ∷ dst) [] i h = ground arith
get_or-overlay (d ∷ dst) (s ∷ src) zero h = ground arith
get_or-overlay (d ∷ dst) (s ∷ src) (suc i) h = ground (arith, get_or-overlay dst src i)

-- Each byte of the buffer after a write inside it.
pub get_or-write_at :
    (dst : List ℕ) (off : ℕ) (src : List ℕ) (i : ℕ)
    → off + length src ≤ length dst
    → get_or (write_at dst off src) i 0 ≡ (
        if ltb i off
        then get_or dst i 0
        else if ltb i (off + length src)
        then get_or src (i - off) 0
        else get_or dst i 0)
unfolding write_at
get_or-write_at dst zero src i h = ground (arith, get_or-overlay dst src i)
get_or-write_at [] (suc off) src i h = absurd (omega arith)
get_or-write_at (d ∷ dst) (suc off) src zero h = ground arith
get_or-write_at (d ∷ dst) (suc off) src (suc i) h = ground (arith, get_or-write_at dst off src i)
