-- ===== src/Topic/Acl/Rules.antt =====
-- What a rule changes.
use securelink.Common.{
  ℕ, ◌/◌, ◌%◌, Bool, true, false, not, ◌&&◌, ◌≡◌, refl, ap, sym, ◌∙◌, some, List, [], ◌∷◌, ◌++◌,
  arith, if◌then◌else◌, All,
}
use securelink.Common.Assoc.{
  lookup, bytes_eq, bytes_beq, bytes_beq_iff, lookup-insert, lookup-erase,
}
use securelink.Bytes.{IsByte}
use securelink.Ident.Hexstr.Codec.{digit-injective}
use securelink.Topic.{matches, is_valid_publish}
use securelink.Topic.Acl.{
  TopicOp, publish, subscribe, TopicRule, TopicAcl, fp_key, rules_of, or_empty, add_rule, push_rule,
  allow, deny, clear, eval, check,
}

abbrev pub op_beq : TopicOp → TopicOp → Bool
op_beq publish publish = true
op_beq publish subscribe = false
op_beq subscribe publish = false
op_beq subscribe subscribe = true

-- Some rule of the list decides.
abbrev pub decides : List TopicRule → List ℕ → Bool
decides [] s = false
decides (r ∷ rs) s = if matches s r.filter then true else decides rs s

-- The rules that an identity has for an operation.
abbrev pub rules : TopicAcl → List ℕ → TopicOp → List TopicRule
rules a fp op = rules_of op (or_empty (lookup (fp_key fp) a.by_fp))

check-rules :
    (a : TopicAcl) (fp : List ℕ) (op : TopicOp) (s : List ℕ)
    → check a fp op s ≡ eval a.default_allow (rules a fp op) s
unfolding check
check-rules a fp publish s = ground arith
check-rules a fp subscribe s = ground arith

eval-append :
    (d : Bool) (rs : List TopicRule) (r : TopicRule) (s : List ℕ)
    → eval d (rs ++ (r ∷ [])) s
      ≡ (if not (decides rs s) && matches s r.filter then r.allow else eval d rs s)
unfolding eval
eval-append d [] r s = ground arith
eval-append d (x ∷ rs) r s = ground (arith, eval-append d rs r s)

push_found :
    (a : TopicAcl) (fp fp' : List ℕ) (op : TopicOp) (r : TopicRule)
    → lookup (fp_key fp') (add_rule a fp op r).by_fp ≡ (
        if bytes_beq (fp_key fp) (fp_key fp')
        then some (push_rule op r (or_empty (lookup (fp_key fp) a.by_fp)))
        else lookup (fp_key fp') a.by_fp)
unfolding add_rule
push_found a fp fp' op r =
    lookup-insert (fp_key fp) (fp_key fp') (push_rule op r (or_empty (lookup (fp_key fp) a.by_fp)))
      a.by_fp

rules-add_rule :
    (a : TopicAcl) (fp fp' : List ℕ) (op op' : TopicOp) (r : TopicRule)
    → rules (add_rule a fp op r) fp' op' ≡ (
        if bytes_beq (fp_key fp) (fp_key fp') && op_beq op op'
        then rules a fp' op' ++ (r ∷ [])
        else rules a fp' op')
unfolding push_rule
rules-add_rule a fp fp' publish publish r =
    ground (arith, push_found a fp fp' publish r, bytes_beq_iff (fp_key fp) (fp_key fp'))
rules-add_rule a fp fp' publish subscribe r =
    ground (arith, push_found a fp fp' publish r, bytes_beq_iff (fp_key fp) (fp_key fp'))
rules-add_rule a fp fp' subscribe publish r =
    ground (arith, push_found a fp fp' subscribe r, bytes_beq_iff (fp_key fp) (fp_key fp'))
rules-add_rule a fp fp' subscribe subscribe r =
    ground (arith, push_found a fp fp' subscribe r, bytes_beq_iff (fp_key fp) (fp_key fp'))

fp_key-injective :
    (xs ys : List ℕ) → All IsByte xs → All IsByte ys → fp_key xs ≡ fp_key ys → xs ≡ ys
unfolding fp_key
fp_key-injective [] [] hx hy e = refl
fp_key-injective [] (y ∷ ys) hx hy e = absurd (cc)
fp_key-injective (x ∷ xs) [] hx hy e = absurd (cc)
fp_key-injective (x ∷ xs) (y ∷ ys) hx hy e = ground (
  arith,
  digit-injective (x / 16) (y / 16),
  digit-injective (x % 16) (y % 16),
  fp_key-injective xs ys hx.1 hy.1,
)

key_beq :
    (xs ys : List ℕ)
    → All IsByte xs
    → All IsByte ys
    → bytes_beq (fp_key xs) (fp_key ys) ≡ bytes_beq xs ys
key_beq xs ys hx hy = ground (
  arith,
  bytes_beq_iff xs ys,
  bytes_beq_iff (fp_key xs) (fp_key ys),
  fp_key-injective xs ys hx hy,
)

eval-pushed :
    (b d : Bool) (rs : List TopicRule) (r : TopicRule) (s : List ℕ)
    → eval d (if b then rs ++ (r ∷ []) else rs) s
      ≡ (if b && (not (decides rs s) && matches s r.filter) then r.allow else eval d rs s)
eval-pushed true d rs r s = eval-append d rs r s
eval-pushed false d rs r s = refl

-- The answer for an identity, an operation and a topic after one more rule. Only the identity and the
-- operation of the rule are affected, and only where no earlier rule decides and the new one
-- matches; then the new one decides.
pub after_rule : TopicAcl → List ℕ → TopicOp → TopicRule → List ℕ → TopicOp → List ℕ → Bool
after_rule a fp op r fp' op' s =
    if (bytes_beq fp fp' && op_beq op op')
      && (not (decides (rules a fp' op') s) && matches s r.filter)
    then r.allow
    else check a fp' op' s

check-add_rule :
    (a : TopicAcl) (fp fp' : List ℕ) (op op' : TopicOp) (r : TopicRule) (s : List ℕ)
    → All IsByte fp
    → All IsByte fp'
    → check (add_rule a fp op r) fp' op' s ≡ after_rule a fp op r fp' op' s
unfolding after_rule add_rule
check-add_rule a fp fp' op op' r s hx hy =
    let is_ours = bytes_beq fp fp' && op_beq op op' in
    check-rules (add_rule a fp op r) fp' op' s
    ∙ ap (λ rs. eval a.default_allow rs s)
        (rules-add_rule a fp fp' op op' r
          ∙ ap (λ k. if k && op_beq op op' then rules a fp' op' ++ (r ∷ []) else rules a fp' op')
              (key_beq fp fp' hx hy))
    ∙ eval-pushed is_ours a.default_allow (rules a fp' op') r s
    ∙ ap
        (λ old.
          if is_ours && (not (decides (rules a fp' op') s) && matches s r.filter)
          then r.allow
          else old)
        (sym (check-rules a fp' op' s))

-- After one more rule, for any identities that are lists of bytes, any operation and topic: the
-- rule decides where it is for this identity and this operation, no earlier rule decides, and its
-- filter matches; everywhere else the answer is as before.
pub check-allow-deny :
    (a : TopicAcl) (fp fp' filter s : List ℕ) (op op' : TopicOp)
    → All IsByte fp
    → All IsByte fp'
    → (check (allow a fp op filter) fp' op' s
        ≡ after_rule a fp op (record { filter = filter; allow = true }) fp' op' s)
      × (check (deny a fp op filter) fp' op' s
          ≡ after_rule a fp op (record { filter = filter; allow = false }) fp' op' s)
unfolding allow deny
check-allow-deny a fp fp' filter s op op' hx hy = (
  check-add_rule a fp fp' op op' (record { filter = filter; allow = true }) s hx hy,
  check-add_rule a fp fp' op op' (record { filter = filter; allow = false }) s hx hy,
)

-- An identity whose rules are cleared has the default, and the others keep their answers.
pub check-clear :
    (a : TopicAcl) (fp fp' s : List ℕ) (op : TopicOp)
    → All IsByte fp
    → All IsByte fp'
    → check (clear a fp) fp' op s ≡ (if bytes_beq fp fp' then a.default_allow else check a fp' op s)
unfolding check clear
check-clear a fp fp' s op hx hy =
    ground (arith, lookup-erase (fp_key fp) (fp_key fp') a.by_fp, key_beq fp fp' hx hy)

undecided :
    (rs : List TopicRule) (d : Bool) (s : List ℕ) → is_valid_publish s ≡ false → eval d rs s ≡ d
unfolding eval matches
undecided [] d s h = refl
undecided (r ∷ rs) d s h = ground (arith, undecided rs d s h)

-- No rule has any effect on what is no topic that may be published, such as a filter with a wildcard:
-- the default decides.
pub check-wildcard :
    (a : TopicAcl) (fp : List ℕ) (op : TopicOp) (filter : List ℕ)
    → is_valid_publish filter ≡ false
    → check a fp op filter ≡ a.default_allow
check-wildcard a fp op filter h =
    check-rules a fp op filter ∙ undecided (rules a fp op) a.default_allow filter h
