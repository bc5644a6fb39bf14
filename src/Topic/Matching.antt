-- ===== src/Topic/Matching.antt =====
-- Which topics a filter stands for.
use securelink.Common.{
  ℕ, ◌≤◌, ◌≢◌, true, false, Bool-cases, inl, inr, ◌↔◌, ◌≡◌, refl, List, [], ◌∷◌, ◌++◌, arith,
  length, ap,
}
use securelink.Common.Assoc.{bytes_beq, bytes_beq_iff}
use securelink.Topic.{
  hash, plus, slash, push_front, split, filter_loop, is_valid_publish, is_valid_filter, match_loop,
  matches,
}

-- What a filter stands for by inc/sl_topic.h, segment by segment: `+` for one segment, `#` for zero or
-- more at the end, and any other for itself.
pub data Covers : List (List ℕ) → List (List ℕ) → Type 0 where
  none_left : Covers [] []
  any_tail : (ts : List (List ℕ)) → Covers (hash ∷ []) ts
  any_one : (t : List ℕ) {fs ts : List (List ℕ)} → Covers fs ts → Covers (plus ∷ fs) (t ∷ ts)
  same : (t : List ℕ) {fs ts : List (List ℕ)} → Covers fs ts → Covers (t ∷ fs) (t ∷ ts)

-- The cases of one segment.
hash_last :
    (f : List ℕ) (fs : List (List ℕ))
    → filter_loop (f ∷ fs) ≡ true
    → bytes_beq f hash ≡ true
    → (f ≡ hash) × (fs ≡ [])
unfolding filter_loop
hash_last f [] h e = ground (arith, bytes_beq_iff f hash)
hash_last f (g ∷ gs) h e = absurd (ground (arith, bytes_beq_iff f hash))

filter_tail :
    (f : List ℕ) (fs : List (List ℕ)) → filter_loop (f ∷ fs) ≡ true → filter_loop fs ≡ true
unfolding filter_loop
filter_tail f [] h = refl
filter_tail f (g ∷ gs) h = ground arith

Covers-hash :
    (f t : List ℕ) (fs ts : List (List ℕ)) → (f ≡ hash) × (fs ≡ []) → Covers (f ∷ fs) (t ∷ ts)
Covers-hash f t fs ts (e, g) = rw (e, g) (any_tail (t ∷ ts))

Covers-plus :
    (f t : List ℕ) (fs ts : List (List ℕ)) → f ≡ plus → Covers fs ts → Covers (f ∷ fs) (t ∷ ts)
Covers-plus f t fs ts e c = rw e (any_one t c)

Covers-same :
    (f t : List ℕ) (fs ts : List (List ℕ)) → f ≡ t → Covers fs ts → Covers (f ∷ fs) (t ∷ ts)
Covers-same f t fs ts e c = rw e (same t c)

match_loop-Covers :
    (ts fs : List (List ℕ)) → filter_loop fs ≡ true → match_loop ts fs ≡ true → Covers fs ts
unfolding match_loop
match_loop-Covers [] [] v m = none_left
match_loop-Covers [] (f ∷ fs) v m = absurd (cc)
match_loop-Covers (t ∷ ts) [] v m = absurd (cc)
match_loop-Covers (t ∷ ts) (f ∷ fs) v m = elim (Bool-cases (bytes_beq f hash)) [
  | inl h ↦ Covers-hash f t fs ts (hash_last f fs v h)
  | inr h ↦
      let rest = match_loop-Covers ts fs (filter_tail f fs v) in
      elim (Bool-cases (bytes_beq f plus)) [
        | inl p ↦ Covers-plus f t fs ts ((bytes_beq_iff f plus).0 p) (rest (ground arith))
        | inr p ↦ Covers-same f t fs ts (ground (arith, bytes_beq_iff f t)) (rest (ground arith))
      ]
]

Covers-match_loop :
    {ts fs : List (List ℕ)} → Covers fs ts → length fs ≤ length ts → match_loop ts fs ≡ true
unfolding match_loop
Covers-match_loop none_left h = refl
Covers-match_loop (any_tail []) h = absurd (omega arith)
Covers-match_loop (any_tail (t ∷ ts)) h = refl
Covers-match_loop (any_one t c) h = rw (Covers-match_loop c (omega arith))
Covers-match_loop (same t c) h =
    ground (arith, bytes_beq_iff t t, Covers-match_loop c (omega arith))

match_loop-length :
    (ts fs : List (List ℕ))
    → filter_loop fs ≡ true
    → match_loop ts fs ≡ true
    → length fs ≤ length ts
unfolding match_loop
match_loop-length [] [] v m = omega arith
match_loop-length [] (f ∷ fs) v m = absurd (cc)
match_loop-length (t ∷ ts) [] v m = absurd (cc)
match_loop-length (t ∷ ts) (f ∷ fs) v m = elim (Bool-cases (bytes_beq f hash)) [
  | inl h ↦ omega (arith, ap length (hash_last f fs v h).1)
  | inr h ↦
      let rest : length fs ≤ length ts =
        match_loop-length ts fs (filter_tail f fs v) (ground arith) in
      omega arith
]

-- A topic matches a filter exactly when both are well-formed, the segments of the filter cover those
-- of the topic as inc/sl_topic.h says, and the filter has no more segments than the topic. The last
-- condition is the code's own: by inc/sl_topic.h, and by src/test_sl_topic.c, `#` stands for zero
-- segments too, and the code does not match it where nothing is left of the topic.
pub matches_iff :
    (topic filter : List ℕ)
    → (matches topic filter ≡ true) ↔ (
        (is_valid_publish topic ≡ true)
        × (is_valid_filter filter ≡ true)
        × Covers (split filter) (split topic)
        × (length (split filter) ≤ length (split topic)))
unfolding matches
matches_iff topic filter = (
  λ m. (
    ground arith,
    ground arith,
    match_loop-Covers (split topic) (split filter) (ground arith) (ground arith),
    match_loop-length (split topic) (split filter) (ground arith) (ground arith),
  ),
  λ h. ground (arith, Covers-match_loop h.2 h.3),
)

push_front-ne_nil : (c : ℕ) (xs : List (List ℕ)) → push_front c xs ≢ []
unfolding push_front
push_front-ne_nil c [] e = cc
push_front-ne_nil c (x ∷ xs) e = cc

split-ne_nil : (s : List ℕ) → split s ≢ []
unfolding split
split-ne_nil [] e = cc
split-ne_nil (c ∷ cs) e = ground (arith, push_front-ne_nil c (split cs))

push_front-append :
    (c : ℕ) (xs ys : List (List ℕ)) → xs ≢ [] → push_front c (xs ++ ys) ≡ push_front c xs ++ ys
unfolding push_front
push_front-append c [] ys h = absurd (h refl)
push_front-append c (x ∷ xs) ys h = refl

pub split-parent : (p : List ℕ) → split (p ++ (slash ∷ hash)) ≡ split p ++ (hash ∷ [])
unfolding split
split-parent [] = refl
split-parent (c ∷ cs) =
    ground (arith, split-parent cs, push_front-append c (split cs) (hash ∷ []) (split-ne_nil cs))

append-ne_nil : (ts : List (List ℕ)) → ts ++ (hash ∷ []) ≢ []
append-ne_nil [] e = cc
append-ne_nil (t ∷ ts) e = cc

parent_uncovered :
    (ts : List (List ℕ))
    → filter_loop (ts ++ (hash ∷ [])) ≡ true
    → match_loop ts (ts ++ (hash ∷ [])) ≡ false
unfolding match_loop
parent_uncovered [] v = refl
parent_uncovered (t ∷ ts) v = elim (Bool-cases (bytes_beq t hash)) [
  | inl h ↦ absurd (append-ne_nil ts (hash_last t (ts ++ (hash ∷ [])) v h).1)
  | inr h ↦
      let rest = parent_uncovered ts (filter_tail t (ts ++ (hash ∷ [])) v) in
      rw (h, (bytes_beq_iff t t).1 refl, rest) (ground arith)
]

-- No topic matches the filter that is the topic with `/#` behind it: `#` never stands for zero
-- segments.
pub matches-parent : (topic : List ℕ) → matches topic (topic ++ (slash ∷ hash)) ≡ false
unfolding is_valid_filter matches
matches-parent topic = ground (arith, split-parent topic, parent_uncovered (split topic))
