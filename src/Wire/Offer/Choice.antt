-- ===== src/Wire/Offer/Choice.antt =====
-- What two peers choose from their offers.
use securelink.Common.{
  ℕ, ◌≤◌, ◌≡◌, refl, ◌⊎◌, inl, inr, true, false, ◌&&◌, List, [], ◌∷◌, arith, ltb, ◌==◌,
  if◌then◌else◌, Bool-cases,
}
use securelink.Wire.Offer.{
  list_has, choose_loop, version_choose, aes256_gcm_sha256, is_supported, cipher_list_has,
  cipher_choose,
}

choose_loop-ge : (best : ℕ) (a b : List ℕ) → best ≤ choose_loop best a b
unfolding choose_loop
choose_loop-ge best [] b = omega arith
choose_loop-ge best (v ∷ vs) b =
    let next = if list_has b v && ltb best v then v else best in
    let ge : best ≤ next = ground arith in omega (arith, choose_loop-ge next vs b)

-- The loop gives no less than any common version.
choose_loop-max :
    (best v : ℕ) (a b : List ℕ)
    → list_has a v ≡ true
    → list_has b v ≡ true
    → v ≤ choose_loop best a b
unfolding choose_loop list_has
choose_loop-max best v [] b ha hb = absurd (ground arith)
choose_loop-max best v (x ∷ xs) b ha hb =
    let next = if list_has b x && ltb best x then x else best in
    elim (Bool-cases (x == v)) [
      | inl e ↦
          let same : x ≡ v = ground (arith, e) in
          let le : v ≤ next = ground (arith, same, hb) in
          omega (arith, le, choose_loop-ge next xs b)
      | inr e ↦
          let rest : list_has xs v ≡ true = ground (arith, e) in choose_loop-max next v xs b rest hb
    ]

choose_loop-common :
    (best : ℕ) (a b : List ℕ)
    → (choose_loop best a b ≡ best)
      ⊎ ((list_has a (choose_loop best a b) ≡ true) × (list_has b (choose_loop best a b) ≡ true))
unfolding choose_loop list_has
choose_loop-common best [] b = inl refl
choose_loop-common best (v ∷ vs) b =
    let next = if list_has b v && ltb best v then v else best in
    ground (arith, choose_loop-common next vs b)

version_choose-le : (a b : List ℕ) → version_choose a b ≤ version_choose b a
unfolding version_choose
version_choose-le a b = elim (choose_loop-common 0 a b) [
  | inl none_common ↦ omega arith
  | inr (ha, hb) ↦ choose_loop-max 0 (choose_loop 0 a b) b a hb ha
]

-- `sl_version_choose` gives 0 or a version that both lists have, and the two peers, each with its own
-- list first, choose the same.
pub version_choose_lem :
    (a b : List ℕ)
    → let v = version_choose a b in
      ((v ≡ 0) ⊎ ((list_has a v ≡ true) × (list_has b v ≡ true))) × (version_choose b a ≡ v)
unfolding version_choose
version_choose_lem a b =
    (choose_loop-common 0 a b, omega (arith, version_choose-le a b, version_choose-le b a))

-- No version that both lists have is larger than the one that `sl_version_choose` gives.
pub version_choose-max :
    (a b : List ℕ) (v : ℕ) → list_has a v ≡ true → list_has b v ≡ true → v ≤ version_choose a b
unfolding version_choose
version_choose-max a b v ha hb = choose_loop-max 0 v a b ha hb

-- What inc/sl_cipher.h says is picked: the first suite of the server that the client offers too, and
-- 0 where there is none.
pub first_common : List ℕ → List ℕ → ℕ
first_common [] offered = 0
first_common (s ∷ pref) offered = if list_has offered s then s else first_common pref offered

-- `sl_cipher_choose` gives the one supported suite where both lists have it, and 0 where not. It
-- passes over a common suite that is not supported, though inc/sl_cipher.h says that the first common
-- one is picked: it differs from that only where that one is not supported.
pub cipher_choose_lem :
    (pref offered : List ℕ)
    → (cipher_choose pref offered ≡ (
        if list_has pref aes256_gcm_sha256 && list_has offered aes256_gcm_sha256
        then aes256_gcm_sha256
        else 0))
      × ((cipher_choose pref offered ≡ first_common pref offered)
          ⊎ (is_supported (first_common pref offered) ≡ false))
unfolding cipher_choose list_has cipher_list_has is_supported first_common
cipher_choose_lem [] offered = (refl, inl refl)
cipher_choose_lem (s ∷ pref) offered = ground (arith, cipher_choose_lem pref offered)
