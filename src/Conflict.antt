-- ===== src/Conflict.antt =====
-- conflict.py: the rules of predicates, and when two claims conflict.
pub mod Overlap
pub mod Applies
pub mod Identity
pub mod Classify
pub mod Direct
pub mod Detect
use statefuse.Base.{
  String, ℕ, ◌+◌, Bool, true, false, not, Option, none, some, List, [], ◌∷◌, if◌then◌else◌,
}
use statefuse.Base.Dict.{Dict, get, put}
use statefuse.Base.Order.{string_key}
use statefuse.Json.{Json, json_eq}
use statefuse.Host.{Host}
use statefuse.Model.Claim.{Claim, derive_claim_ref}

-- The functions of a rule are those of its user, who promises that they are deterministic.
pub record PredicateRule : Type 0 where
  pub multi_valued : Bool
  pub normalize : Option (Json → Json)
  pub equal : Option (Json → Json → Bool)
  pub normalize_for_claim_ref : Bool

pub record PredicateRegistry : Type 0 where
  pub rules : Dict String PredicateRule
  pub revision : ℕ

unfoldable pub register : PredicateRegistry → String → PredicateRule → PredicateRegistry
register r predicate rule = record { rules = put predicate rule r.rules; revision = r.revision + 1 }

abbrev pub default_rule : PredicateRule
default_rule = record {
  multi_valued = false;
  normalize = none;
  equal = none;
  normalize_for_claim_ref = false;
}

unfoldable pub rule_for : PredicateRegistry → String → PredicateRule
rule_for r predicate = elim (get predicate r.rules) [ none ↦ default_rule | some rule ↦ rule ]

abbrev pub is_multi_valued : PredicateRegistry → String → Bool
is_multi_valued r predicate = (rule_for r predicate).multi_valued

unfoldable pub normalize_value : PredicateRegistry → String → Json → Json
unfolding rule_for
normalize_value r predicate value = elim (rule_for r predicate).normalize [
  | none ↦ value
  | some normalize ↦ normalize value
]

unfoldable pub values_equal : PredicateRegistry → String → Json → Json → Bool
unfolding rule_for normalize_value
values_equal r predicate left right = elim (rule_for r predicate).equal [
  | none ↦ json_eq (normalize_value r predicate left) (normalize_value r predicate right)
  | some equal ↦ equal left right
]

unfoldable pub claim_ref_value : PredicateRegistry → String → Json → Json
unfolding rule_for
claim_ref_value r predicate value = elim (rule_for r predicate).normalize [
  | none ↦ value
  | some normalize ↦
      if (rule_for r predicate).normalize_for_claim_ref then normalize value else value
]

unfoldable pub claim_ref_for_claim : Host → PredicateRegistry → Claim → String
unfolding claim_ref_value
claim_ref_for_claim h r c =
    derive_claim_ref h c.key (claim_ref_value r c.key.predicate c.value) c.kind c.context
