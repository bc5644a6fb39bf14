-- ===== src/Guard/Table/Total.antt =====
-- Sums over the entries of a hash table, and what holds of each entry.
use mathlib.Core.Path.{subst}
use securelink.Common.{
  ℕ, zero, suc, ◌+◌, ◌≤◌, ◌<◌, ◌≡◌, refl, inl, inr, some, [], ◌∷◌, arith, Bool-cases, length,
  get_or, set, replicate,
}
use securelink.Guard.Table.{
  Key, bucket_count, same_key, bucket, Chain, Table, empty, chain_find, chain_put, find, put,
  insert,
}
use securelink.Guard.Table.Find.{bucket-lt}

module _ {V : Type 0} (f : V → ℕ) where
  unfoldable pub chain_total : Chain V → ℕ
  chain_total [] = 0
  chain_total ((k, v) ∷ es) = f v + chain_total es

  unfoldable pub total : Table V → ℕ
  total [] = 0
  total (es ∷ t) = chain_total es + total t

  chain_total-chain_put :
      (es : Chain V) (key : Key) (v w : V)
      → chain_find es key ≡ some v
      → chain_total (chain_put es key w) + f v ≡ chain_total es + f w
  unfolding chain_total chain_find chain_put
  chain_total-chain_put [] key v w h = ground arith
  chain_total-chain_put ((k, u) ∷ es) key v w h = elim (Bool-cases (same_key k key)) [
    | inl e ↦ let same : f u ≡ f v = ground (arith, e) in rw e (omega (arith, same))
    | inr e ↦
        let rest : chain_find es key ≡ some v = ground (arith, e) in
        rw e (omega (arith, chain_total-chain_put es key v w rest))
  ]

  total-set :
      (t : Table V) (i : ℕ) (es : Chain V)
      → i < length t
      → total (set t i es) + chain_total (get_or t i []) ≡ total t + chain_total es
  unfolding total
  total-set [] i es h = absurd (omega arith)
  total-set (fs ∷ t) zero es h = omega arith
  total-set (fs ∷ t) (suc i) es h = omega (arith, total-set t i es (omega arith))

  pub total-put :
      (t : Table V) (key : Key) (v w : V)
      → length t ≡ bucket_count
      → find t key ≡ some v
      → total (put t key w) + f v ≡ total t + f w
  unfolding put find
  total-put t key v w full h =
      let es = get_or t (bucket key) [] in
      omega (
        arith,
        total-set t (bucket key) (chain_put es key w) (omega (arith, bucket-lt key)),
        chain_total-chain_put es key v w h,
      )

  pub total-insert :
      (t : Table V) (key : Key) (w : V)
      → length t ≡ bucket_count
      → total (insert t key w) ≡ total t + f w
  unfolding insert
  total-insert t key w full =
      let es = get_or t (bucket key) [] in
      let cons : chain_total ((key, w) ∷ es) ≡ f w + chain_total es = unfold chain_total in refl in
      omega (arith, total-set t (bucket key) ((key, w) ∷ es) (omega (arith, bucket-lt key)), cons)

  total-replicate : (n : ℕ) → total (replicate n []) ≡ 0
  unfolding total chain_total
  total-replicate zero = refl
  total-replicate (suc n) = omega (arith, total-replicate n)

  pub total-empty : total (empty V) ≡ 0
  unfolding empty
  total-empty = total-replicate bucket_count

  -- One entry counts no more than all of them.
  pub find-le-total :
      (t : Table V) (key : Key) (v w : V)
      → length t ≡ bucket_count
      → find t key ≡ some v
      → f w ≡ 0
      → f v ≤ total t
  find-le-total t key v w full h z = omega (arith, total-put t key v w full h)

module _ {V : Type 0} (P : V → Type 0) where
  abbrev pub ChainEvery : Chain V → Type 0
  ChainEvery [] = Unit
  ChainEvery ((k, v) ∷ es) = P v × ChainEvery es

  abbrev pub Every : Table V → Type 0
  Every [] = Unit
  Every (es ∷ t) = ChainEvery es × Every t

  Every-get_or : (t : Table V) (i : ℕ) → Every t → ChainEvery (get_or t i [])
  Every-get_or [] i h = tt
  Every-get_or (es ∷ t) zero h = h.0
  Every-get_or (es ∷ t) (suc i) h = Every-get_or t i h.1

  Every-set : (t : Table V) (i : ℕ) (es : Chain V) → Every t → ChainEvery es → Every (set t i es)
  Every-set [] i es h c = tt
  Every-set (fs ∷ t) zero es h c = (c, h.1)
  Every-set (fs ∷ t) (suc i) es h c = (h.0, Every-set t i es h.1 c)

  ChainEvery-chain_put :
      (es : Chain V) (key : Key) (w : V) → ChainEvery es → P w → ChainEvery (chain_put es key w)
  unfolding chain_put
  ChainEvery-chain_put [] key w h p = tt
  ChainEvery-chain_put ((k, v) ∷ es) key w h p = elim (Bool-cases (same_key k key)) [
    | inl e ↦ rw e (p, h.1)
    | inr e ↦ rw e (h.0, ChainEvery-chain_put es key w h.1 p)
  ]

  ChainEvery-chain_find :
      (es : Chain V) (key : Key) (v : V) → ChainEvery es → chain_find es key ≡ some v → P v
  unfolding chain_find
  ChainEvery-chain_find [] key v h e = absurd (ground arith)
  ChainEvery-chain_find ((k, u) ∷ es) key v h e = elim (Bool-cases (same_key k key)) [
    | inl s ↦ let same : u ≡ v = ground (arith, s) in subst P same h.0
    | inr s ↦
        let rest : chain_find es key ≡ some v = ground (arith, s) in
        ChainEvery-chain_find es key v h.1 rest
  ]

  pub Every-put : (t : Table V) (key : Key) (w : V) → Every t → P w → Every (put t key w)
  unfolding put
  Every-put t key w h p =
      Every-set t (bucket key) (chain_put (get_or t (bucket key) []) key w) h
        (ChainEvery-chain_put (get_or t (bucket key) []) key w (Every-get_or t (bucket key) h) p)

  pub Every-insert : (t : Table V) (key : Key) (w : V) → Every t → P w → Every (insert t key w)
  unfolding insert
  Every-insert t key w h p =
      Every-set t (bucket key) ((key, w) ∷ get_or t (bucket key) []) h
        (p, Every-get_or t (bucket key) h)

  pub Every-find : (t : Table V) (key : Key) (v : V) → Every t → find t key ≡ some v → P v
  unfolding find
  Every-find t key v h e =
      ChainEvery-chain_find (get_or t (bucket key) []) key v (Every-get_or t (bucket key) h) e

  Every-replicate : (n : ℕ) → Every (replicate n [])
  Every-replicate zero = tt
  Every-replicate (suc n) = (tt, Every-replicate n)

  pub Every-empty : Every (empty V)
  unfolding empty
  Every-empty = Every-replicate bucket_count
