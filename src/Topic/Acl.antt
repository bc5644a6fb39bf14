-- ===== src/Topic/Acl.antt =====
-- src/topic_acl.cpp: who may publish and subscribe where.
pub mod Rules
use securelink.Common.{
  ℕ, ◌+◌, ◌/◌, ◌%◌, Bool, true, false, Option, none, some, List, [], ◌∷◌, ◌++◌, if◌then◌else◌,
  length, get_or,
}
use securelink.Common.Assoc.{lookup, insert, erase, bytes_eq}
use securelink.Ident.Hexstr.{digit}
use securelink.Topic.{matches}

pub data TopicOp : Type 0 where
  publish subscribe : TopicOp

pub record TopicRule : Type 0 where
  pub filter : List ℕ
  pub allow : Bool

pub record Entry : Type 0 where
  pub publish_rules : List TopicRule
  pub subscribe_rules : List TopicRule

pub record TopicAcl : Type 0 where
  pub by_fp : List (List ℕ × Entry)
  pub default_allow : Bool

abbrev pub new : TopicAcl
new = record { by_fp = []; default_allow = false }

-- `>> 4` and `& 0x0F` of a byte
unfoldable pub fp_key : List ℕ → List ℕ
fp_key [] = []
fp_key (b ∷ bs) = digit (b / 16) ∷ digit (b % 16) ∷ fp_key bs

abbrev pub no_rules : Entry
no_rules = record { publish_rules = []; subscribe_rules = [] }

abbrev pub or_empty : Option Entry → Entry
or_empty none = no_rules
or_empty (some e) = e

abbrev pub rules_of : TopicOp → Entry → List TopicRule
rules_of publish e = e.publish_rules
rules_of subscribe e = e.subscribe_rules

-- `push_back`
push_rule : TopicOp → TopicRule → Entry → Entry
push_rule publish r e = record e { publish_rules = e.publish_rules ++ (r ∷ []) }
push_rule subscribe r e = record e { subscribe_rules = e.subscribe_rules ++ (r ∷ []) }

-- `by_fp_[fp_key(fp)]` makes an entry where there is none.
add_rule : TopicAcl → List ℕ → TopicOp → TopicRule → TopicAcl
unfolding push_rule
add_rule a fp op r =
    let key = fp_key fp in
    record a { by_fp = insert key (push_rule op r (or_empty (lookup key a.by_fp))) a.by_fp }

unfoldable pub allow : TopicAcl → List ℕ → TopicOp → List ℕ → TopicAcl
unfolding add_rule
allow a fp op filter = add_rule a fp op (record { filter = filter; allow = true })

unfoldable pub deny : TopicAcl → List ℕ → TopicOp → List ℕ → TopicAcl
unfolding add_rule
deny a fp op filter = add_rule a fp op (record { filter = filter; allow = false })

-- `clear`
unfoldable pub clear : TopicAcl → List ℕ → TopicAcl
clear a fp = record a { by_fp = erase (fp_key fp) a.by_fp }

unfoldable pub eval : Bool → List TopicRule → List ℕ → Bool
eval default_allow [] s = default_allow
eval default_allow (r ∷ rs) s = if matches s r.filter then r.allow else eval default_allow rs s

checked : Bool → TopicOp → List ℕ → Option Entry → Bool
unfolding eval
checked default_allow op s none = default_allow
checked default_allow op s (some e) = eval default_allow (rules_of op e) s

unfoldable pub check : TopicAcl → List ℕ → TopicOp → List ℕ → Bool
unfolding checked
check a fp op s = checked a.default_allow op s (lookup (fp_key fp) a.by_fp)

unfoldable pub rule_count : TopicAcl → List ℕ → ℕ
rule_count a fp = elim (lookup (fp_key fp) a.by_fp) [
  | none ↦ 0
  | some e ↦ length e.publish_rules + length e.subscribe_rules
]

unfoldable pub identity_count : TopicAcl → ℕ
identity_count a = length a.by_fp
