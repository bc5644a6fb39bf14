-- ===== src/Wire/RpcMethod/Split.antt =====
-- Method names split at their last dot.
use securelink.Common.{
  ℕ, suc, ◌+◌, ◌-◌, ◌<◌, ◌≡◌, refl, ap, ◌∙◌, ◌⊎◌, inl, inr, Bool, true, false, ◌||◌, Option, none,
  some, List, [], ◌∷◌, ◌++◌, arith, ◌==◌, if◌then◌else◌, Bool-cases, length, take, drop,
  length-drop, take_all, ok,
}
use securelink.Wire.RpcMethod.{dot, method_is_valid, last_dot, method_split}

unfoldable pub has_dot : List ℕ → Bool
has_dot [] = false
has_dot (c ∷ cs) = (c == dot) || has_dot cs

-- Where the loop ends up: nothing new, or the last dot.
last_dot_lem :
    (xs : List ℕ) (i : ℕ) (found : Option ℕ)
    → ((last_dot i xs found ≡ found) × (has_dot xs ≡ false))
      ⊎ ((k : ℕ) × (last_dot i xs found ≡ some (i + k))
          × (k < length xs)
          × (xs ≡ take k xs ++ (dot ∷ drop (suc k) xs))
          × (has_dot (drop (suc k) xs) ≡ false))
unfolding last_dot has_dot
last_dot_lem [] i found = inl (refl, refl)
last_dot_lem (c ∷ cs) i found =
    elim (last_dot_lem cs (suc i) (if c == dot then some i else found)) [
      | inr (k, e, small, shape, none_after) ↦ inr (
        suc k,
        e ∙ ap some (omega arith),
        omega arith,
        ap (λ (t : List ℕ). c ∷ t) shape,
        none_after,
      )
      | inl (e, none_in) ↦ elim (Bool-cases (c == dot)) [
        | inl is_dot ↦
            inr (0, e ∙ ground (arith, is_dot), omega arith, ground (arith, is_dot), none_in)
        | inr no_dot ↦ inl (e ∙ ground (arith, no_dot), ground (arith, no_dot, none_in))
      ]
    ]

-- `sl_rpc_method_split` splits a valid name at its last dot: the leaf has none, and the namespace, a
-- dot and the leaf make up the name; where there is no dot, the namespace is empty and the leaf is the
-- name.
pub method_split_lem :
    (method ns leaf : List ℕ)
    → method_split method ≡ ok (ns, leaf)
    → (method_is_valid method ≡ true)
      × (has_dot leaf ≡ false)
      × (((ns ≡ []) × (leaf ≡ method)) ⊎ (method ≡ ns ++ (dot ∷ leaf)))
unfolding method_split
method_split_lem method ns leaf e = elim (last_dot_lem method 0 none) [
  | inl (at, none_in) ↦ ground (arith, at, none_in)
  | inr (k, at, small, shape, none_after) ↦
      let all : take (length method - k - 1) (drop (suc k) method) ≡ drop (suc k) method =
        take_all (length method - k - 1) (drop (suc k) method)
          (omega (arith, length-drop (suc k) method)) in
      ground (arith, at, all, shape, none_after)
]
