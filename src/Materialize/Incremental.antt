-- ===== src/Materialize/Incremental.antt =====
-- The variables of the loop of `apply_operations_incrementally`, and what its rounds do to them.
pub mod Rounds
pub mod Withdraw
pub mod Retraction
pub mod NewClaim
pub mod Start
pub mod Log
pub mod Full
pub mod Preserved
pub mod Consistent
pub mod Sets
use text.Mathlib.Text.{◌==◌}
use statefuse.Base.{
  String, Bool, true, false, not, ◌||◌, Option, none, some, List, [], ◌∷◌, ◌++◌, any, if◌then◌else◌,
}
use statefuse.Base.Dict.{Dict, get, put, has, pop}
use statefuse.Base.Order.{string_key, pair_key}
use statefuse.Base.Sorted.{sorted_by}
use statefuse.Base.Groups.{group, append_to, add_member, add_to}
use statefuse.Result.{Result, ok, raise, collision, ◌>>=◌}
use statefuse.Host.{Host}
use statefuse.Model.ClaimKey.{ClaimKey, claim_key_key}
use statefuse.Model.Source.{Source}
use statefuse.Model.Evidence.{Evidence}
use statefuse.Model.Claim.{Claim}
use statefuse.Model.Decision.{Decision}
use statefuse.Model.Derivation.{Derivation}
use statefuse.Model.Resolution.{ResolutionRecord}
use statefuse.Model.Lifecycle.{ConflictLifecycleEvent}
use statefuse.Ops.{
  Op, Body, source_added, evidence_added, claim_added, claim_retracted, decision_added,
  derivation_added, resolution_added, conflict_lifecycle_event_added,
}
use statefuse.Ops.Retraction.{ClaimRetracted}
use statefuse.Conflict.{PredicateRegistry, claim_ref_for_claim}
use statefuse.Conflict.Detect.{claim_eq}
use statefuse.Materialize.Facts.{
  Facts, source_eq, evidence_eq, decision_eq, derivation_eq, resolution_eq, event_eq,
}
use statefuse.Materialize.History.{Histories, append_resolution_history, append_lifecycle_history}
use statefuse.Materialize.Indexes.{opt_list, add_under}

-- The sets of what the operations touch.
pub record Affected : Type 0 where
  pub keys : List ClaimKey
  pub claim_ids : List String
  pub conflict_refs : List String
  pub resolution_ids : List String

-- The variables of the loop.
pub record Working : Type 0 where
  pub facts : Facts
  pub inactive : List String
  pub inapplicable : List String
  pub active : Dict ClaimKey (List Claim)
  pub claims_of_evidence : Dict String (List String)
  pub claims_of_derivation : Dict String (List String)
  pub evidence_of_source : Dict String (List String)
  pub resolutions_of_claim : Dict String (List String)
  pub resolution_history : Histories ResolutionRecord
  pub lifecycle_history : Histories ConflictLifecycleEvent
  pub affected : Affected

-- `_insert_immutable`: the mapping, and whether the record is new.
unfoldable pub insert_immutable :
    {V : Type 0}
    → (V → V → Bool)
    → String
    → String
    → V
    → Dict String V
    → Result (Dict String V × Bool)
insert_immutable same kind id v d = elim (get id d) [
  | none ↦ ok (put id v d, true)
  | some existing ↦ if same existing v then ok (d, false) else raise (collision kind id)
]

abbrev pub with_retraction : Op → List Op → List Op
with_retraction op items =
    if any (λ (x : Op). x.op_id == op.op_id) items
    then items
    else sorted_by {K = String × String} (λ (x : Op). (x.timestamp, x.op_id)) (items ++ op ∷ [])

-- `setdefault` puts an empty list under a new key.
unfoldable pub append_sorted_retraction :
    String → Op → Dict String (List Op) → Dict String (List Op)
unfolding group sorted_by
append_sorted_retraction key op d = put key (with_retraction op (group key d)) d

-- The same, `if name:`
unfoldable pub append_sorted_named :
    Option String → Op → Dict String (List Op) → Dict String (List Op)
unfolding append_sorted_retraction
append_sorted_named none op d = d
append_sorted_named (some name) op d = if name == "" then d else append_sorted_retraction name op d

unfoldable pub mark_claim_keys : List String → Dict String Claim → List ClaimKey → List ClaimKey
unfolding get add_member
mark_claim_keys [] claims keys = keys
mark_claim_keys (id ∷ ids) claims keys = elim (get id claims) [
  | none ↦ mark_claim_keys ids claims keys
  | some c ↦ mark_claim_keys ids claims (add_member c.key keys)
]

abbrev pub mark : List String → Working → Affected
mark ids w = record w.affected { keys = mark_claim_keys ids w.facts.claims_by_id w.affected.keys }

-- `s.update(ids)`
unfoldable pub add_members : List String → List String → List String
unfolding add_member
add_members [] s = s
add_members (id ∷ ids) s = add_members ids (add_member id s)

-- The claims of each evidence of the source.
unfoldable pub mark_source : List String → Working → Working
unfolding mark_claim_keys group
mark_source [] w = w
mark_source (id ∷ ids) w =
    mark_source ids (record w { affected = mark (group id w.claims_of_evidence) w })

-- A claim that was not known.
unfoldable pub add_claim : Host → PredicateRegistry → Working → Claim → Dict String Claim → Working
unfolding add_to add_under add_members append_to claim_ref_for_claim get
add_claim h r w c claims =
    let ref = claim_ref_for_claim h r c in
    let gone =
      has c.claim_id w.facts.retractions_by_target || has ref w.facts.retractions_by_target_ref in
    record w {
      facts = record w.facts {
        claims_by_id = claims;
        claim_refs_by_id = put c.claim_id ref w.facts.claim_refs_by_id;
        claim_ids_by_ref = add_to ref c.claim_id w.facts.claim_ids_by_ref;
      };
      claims_of_evidence = add_under c.evidence_ids c.claim_id w.claims_of_evidence;
      claims_of_derivation = add_under (opt_list c.derivation_id) c.claim_id w.claims_of_derivation;
      inactive = if gone then add_member c.claim_id w.inactive else w.inactive;
      active = if gone then w.active else append_to c.key c w.active;
      affected = record w.affected {
        keys = add_member c.key w.affected.keys;
        claim_ids = add_member c.claim_id w.affected.claim_ids;
        resolution_ids =
            add_members (group c.claim_id w.resolutions_of_claim) w.affected.resolution_ids;
      };
    }

-- `[item for item in items if item.claim_id != claim_id]`
unfoldable pub without : String → List Claim → List Claim
without id [] = []
without id (c ∷ l) = let rest = without id l in if c.claim_id == id then rest else c ∷ rest

-- `s.discard(id)`
unfoldable pub discard : String → List String → List String
discard id [] = []
discard id (x ∷ l) = let rest = discard id l in if x == id then rest else x ∷ rest

abbrev pub deactivate : String → Claim → Working → Working
deactivate id c w = record w {
  inactive = add_member id w.inactive;
  inapplicable = discard id w.inapplicable;
  active = put c.key (without id (group c.key w.active)) w.active;
  affected = record w.affected {
    keys = add_member c.key w.affected.keys;
    claim_ids = add_member id w.affected.claim_ids;
  };
}

-- `for claim_id in targets`
unfoldable pub withdraw : List String → Working → Working
unfolding get add_member discard group without
withdraw [] w = w
withdraw (id ∷ ids) w = elim (get id w.facts.claims_by_id) [
  | none ↦ withdraw ids w
  | some c ↦ withdraw ids (deactivate id c w)
]

-- `if name:`
unfoldable pub given : Option String → List String
given none = []
given (some name) = if name == "" then [] else name ∷ []

unfoldable pub targets_under : List String → Dict String (List String) → List String
unfolding group
targets_under [] d = []
targets_under (ref ∷ refs) d = group ref d ++ targets_under refs d

abbrev pub file_retraction : Op → ClaimRetracted → Working → Working
file_retraction op x w = record w {
  facts = record w.facts {
    retractions_by_target = append_sorted_named x.target_claim_id op w.facts.retractions_by_target;
    retractions_by_target_ref =
        append_sorted_named x.target_claim_ref op w.facts.retractions_by_target_ref;
    retractions_by_superseder =
        append_sorted_named x.supersedes_claim_id op w.facts.retractions_by_superseder;
    retractions_by_superseder_ref =
        append_sorted_named x.supersedes_claim_ref op w.facts.retractions_by_superseder_ref;
  };
  inactive = add_members (given x.target_claim_id) w.inactive;
  affected = record w.affected {
    claim_ids = add_members (given x.target_claim_id) w.affected.claim_ids;
  };
}
