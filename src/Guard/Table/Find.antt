-- ===== src/Guard/Table/Find.antt =====
-- A hash table is a finite map.
use native.Mathlib.Nat.{mod-lt}
use securelink.Common.{
  ℕ, zero, suc, ◌<◌, ◌≡◌, refl, sym, ap, ◌∙◌, ◌≢◌, ◌⊎◌, inl, inr, true, false, none, some, [], ◌∷◌,
  arith, Bool-cases, length, get_or, set, replicate, length-set, get_or-set_self, get_or-set_ne,
  length-replicate,
}
use securelink.Guard.Table.{
  Key, bucket_count, same_key, fnv1a, bucket, Chain, Table, empty, chain_find, chain_put, find, put,
  insert,
}

pub same_key_sound : (a b : Key) → same_key a b ≡ true → a ≡ b
unfolding same_key
same_key_sound [] [] h = refl
same_key_sound [] (d ∷ t) h = ground arith
same_key_sound (c ∷ s) [] h = ground arith
same_key_sound (c ∷ s) (d ∷ t) h = grind (arith, same_key_sound s t)

pub same_key_refl : (a : Key) → same_key a a ≡ true
unfolding same_key
same_key_refl [] = refl
same_key_refl (c ∷ s) = ground (arith, same_key_refl s)

pub same_key-ne : (a b : Key) → a ≢ b → same_key a b ≡ false
same_key-ne a b h = elim (Bool-cases (same_key a b)) [
  | inl e ↦ absurd (h (same_key_sound a b e))
  | inr e ↦ e
]

same_bucket : (a b : ℕ) → (a ≡ b) ⊎ (a ≢ b)
same_bucket a b = ground arith

pub bucket-lt : (key : Key) → bucket key < bucket_count
unfolding bucket
bucket-lt key = mod-lt (fnv1a key) (omega arith)

module _ {V : Type 0} where
  chain_find-chain_put_self :
      (es : Chain V) (key : Key) (v w : V)
      → chain_find es key ≡ some v
      → chain_find (chain_put es key w) key ≡ some w
  unfolding chain_find chain_put
  chain_find-chain_put_self [] key v w h = ground arith
  chain_find-chain_put_self ((k, u) ∷ es) key v w h =
      ground (arith, chain_find-chain_put_self es key v w)

  chain_find-chain_put_ne :
      (es : Chain V) (key key' : Key) (w : V)
      → key ≢ key'
      → chain_find (chain_put es key w) key' ≡ chain_find es key'
  unfolding chain_find chain_put
  chain_find-chain_put_ne [] key key' w h = refl
  chain_find-chain_put_ne ((k, u) ∷ es) key key' w h = elim (Bool-cases (same_key k key)) [
    | inl e ↦
        let other : same_key k key' ≡ false =
          same_key-ne k key' (λ p. h (sym (same_key_sound k key e) ∙ p)) in
        rw (e, other) refl
    | inr e ↦ rw (e, chain_find-chain_put_ne es key key' w h) refl
  ]

  -- A write in one bucket leaves what the other keys find.
  find-set_ne :
      (t : Table V) (key key' : Key) (es : Chain V)
      → length t ≡ bucket_count
      → chain_find es key' ≡ chain_find (get_or t (bucket key) []) key'
      → find (set t (bucket key) es) key' ≡ find t key'
  unfolding find
  find-set_ne t key key' es full h = elim (same_bucket (bucket key) (bucket key')) [
    | inl e ↦
        ap (λ (es' : Chain V). chain_find es' key')
          (rw (← e) (get_or-set_self t (bucket key) es [] (omega (arith, bucket-lt key))))
        ∙ h
        ∙ ap (λ (b : ℕ). chain_find (get_or t b []) key') e
    | inr ne ↦
        ap (λ (es' : Chain V). chain_find es' key')
          (get_or-set_ne t (bucket key) (bucket key') es [] ne)
  ]

  find-set_self :
      (t : Table V) (key : Key) (es : Chain V)
      → length t ≡ bucket_count
      → find (set t (bucket key) es) key ≡ chain_find es key
  unfolding find
  find-set_self t key es full =
      ap (λ (es' : Chain V). chain_find es' key)
        (get_or-set_self t (bucket key) es [] (omega (arith, bucket-lt key)))

  pub find-put_self :
      (t : Table V) (key : Key) (v w : V)
      → length t ≡ bucket_count
      → find t key ≡ some v
      → find (put t key w) key ≡ some w
  unfolding put
  find-put_self t key v w full h =
      let es = get_or t (bucket key) [] in
      find-set_self t key (chain_put es key w) full
      ∙ chain_find-chain_put_self es key v w (unfold find in h)

  pub find-put_ne :
      (t : Table V) (key key' : Key) (w : V)
      → length t ≡ bucket_count
      → key ≢ key'
      → find (put t key w) key' ≡ find t key'
  unfolding put
  find-put_ne t key key' w full h =
      let es = get_or t (bucket key) [] in
      find-set_ne t key key' (chain_put es key w) full (chain_find-chain_put_ne es key key' w h)

  pub find-insert_self :
      (t : Table V) (key : Key) (w : V)
      → length t ≡ bucket_count
      → find (insert t key w) key ≡ some w
  unfolding insert chain_find
  find-insert_self t key w full =
      let es = get_or t (bucket key) [] in
      find-set_self t key ((key, w) ∷ es) full ∙ rw (same_key_refl key) refl

  pub find-insert_ne :
      (t : Table V) (key key' : Key) (w : V)
      → length t ≡ bucket_count
      → key ≢ key'
      → find (insert t key w) key' ≡ find t key'
  unfolding insert chain_find
  find-insert_ne t key key' w full h =
      let es = get_or t (bucket key) [] in
      find-set_ne t key key' ((key, w) ∷ es) full (rw (same_key-ne key key' h) refl)

  pub length-put : (t : Table V) (key : Key) (w : V) → length (put t key w) ≡ length t
  unfolding put
  length-put t key w = length-set t (bucket key) (chain_put (get_or t (bucket key) []) key w)

  pub length-insert : (t : Table V) (key : Key) (w : V) → length (insert t key w) ≡ length t
  unfolding insert
  length-insert t key w = length-set t (bucket key) ((key, w) ∷ get_or t (bucket key) [])

  get_or-replicate : (n i : ℕ) (x : Chain V) → get_or (replicate n x) i x ≡ x
  get_or-replicate zero i x = refl
  get_or-replicate (suc n) zero x = refl
  get_or-replicate (suc n) (suc i) x = get_or-replicate n i x

pub find-empty : (V : Type 0) (key : Key) → find (empty V) key ≡ none
unfolding find empty chain_find
find-empty V key =
    ap (λ (es : Chain V). chain_find es key) (get_or-replicate bucket_count (bucket key) [])

pub length-empty : (V : Type 0) → length (empty V) ≡ bucket_count
unfolding empty
length-empty V = length-replicate {A = Chain V} bucket_count []
