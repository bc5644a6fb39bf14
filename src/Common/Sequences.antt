-- ===== src/Common/Sequences.antt =====
-- Histories: events that happened in a given order, and the state after a list of events.
use mathlib.Core.List.{List, [], ◌∷◌}

-- The first list, with other elements in between.
pub data Subsequence {ℓ} {A : Type ℓ} : List A → List A → Type ℓ where
  done : {ys : List A} → Subsequence [] ys
  keep : {x : A} {xs ys : List A} → Subsequence xs ys → Subsequence (x ∷ xs) (x ∷ ys)
  skip : {y : A} {xs ys : List A} → Subsequence xs ys → Subsequence xs (y ∷ ys)

-- The state after the events, the first of them first.
abbrev pub run {ℓ κ} : {S : Type ℓ} {E : Type κ} → (S → E → S) → S → List E → S
run step s [] = s
run step s (e ∷ es) = run step (step s e) es
