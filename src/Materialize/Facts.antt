-- ===== src/Materialize/Facts.antt =====
-- The first loop of `materialize`: what the operations of a log put down, record by record.
pub mod Claims
pub mod Log
pub mod Filed
pub mod Withdrawn
use text.Mathlib.Text.{◌==◌}
use statefuse.Base.{String, Bool, true, false, Option, none, some, List, [], ◌∷◌, if◌then◌else◌}
use statefuse.Base.Dict.{Dict, get, put}
use statefuse.Base.Order.{string_key}
use statefuse.Base.Groups.{append_to, add_to}
use statefuse.Json.{object, json_eq}
use statefuse.Result.{Result, ok, raise, collision, ◌>>=◌}
use statefuse.Host.{Host}
use statefuse.Model.Source
use statefuse.Model.Source.{Source}
use statefuse.Model.Evidence
use statefuse.Model.Evidence.{Evidence}
use statefuse.Model.Claim.{Claim}
use statefuse.Model.Decision
use statefuse.Model.Decision.{Decision}
use statefuse.Model.Derivation
use statefuse.Model.Derivation.{Derivation}
use statefuse.Model.Resolution
use statefuse.Model.Resolution.{ResolutionRecord}
use statefuse.Model.Lifecycle
use statefuse.Model.Lifecycle.{ConflictLifecycleEvent}
use statefuse.Ops.{
  Op, Body, source_added, evidence_added, claim_added, claim_retracted, decision_added,
  derivation_added, resolution_added, conflict_lifecycle_event_added,
}
use statefuse.Ops.Retraction.{ClaimRetracted}
use statefuse.Conflict.{PredicateRegistry, claim_ref_for_claim}
use statefuse.Conflict.Detect.{claim_eq}

-- The variables of the loop. A retraction is kept as its operation.
pub record Facts : Type 0 where
  pub sources_by_id : Dict String Source
  pub evidence_by_id : Dict String Evidence
  pub claims_by_id : Dict String Claim
  pub claim_refs_by_id : Dict String String
  pub claim_ids_by_ref : Dict String (List String)
  pub decisions_by_id : Dict String Decision
  pub derivations_by_id : Dict String Derivation
  pub resolutions_by_id : Dict String ResolutionRecord
  pub lifecycle_events_by_id : Dict String ConflictLifecycleEvent
  pub retractions_by_target : Dict String (List Op)
  pub retractions_by_target_ref : Dict String (List Op)
  pub retractions_by_superseder : Dict String (List Op)
  pub retractions_by_superseder_ref : Dict String (List Op)

abbrev pub no_facts : Facts
no_facts = record {
  sources_by_id = [];
  evidence_by_id = [];
  claims_by_id = [];
  claim_refs_by_id = [];
  claim_ids_by_ref = [];
  decisions_by_id = [];
  derivations_by_id = [];
  resolutions_by_id = [];
  lifecycle_events_by_id = [];
  retractions_by_target = [];
  retractions_by_target_ref = [];
  retractions_by_superseder = [];
  retractions_by_superseder_ref = [];
}

-- A record under a known identifier must be equal to the one that is there, and replaces it.
unfoldable pub keep :
    {V : Type 0} → (V → V → Bool) → String → String → V → Dict String V → Result (Dict String V)
keep same kind id v d = elim (get id d) [
  | none ↦ ok (put id v d)
  | some existing ↦ if same existing v then ok (put id v d) else raise (collision kind id)
]

-- `existing == record`, by what `to_dict` writes of their fields
abbrev pub source_eq : Source → Source → Bool
source_eq a b = json_eq (object (Source.to_dict a)) (object (Source.to_dict b))

abbrev pub evidence_eq : Evidence → Evidence → Bool
evidence_eq a b = json_eq (object (Evidence.to_dict a)) (object (Evidence.to_dict b))

abbrev pub decision_eq : Decision → Decision → Bool
decision_eq a b = json_eq (object (Decision.to_dict a)) (object (Decision.to_dict b))

abbrev pub derivation_eq : Derivation → Derivation → Bool
derivation_eq a b = json_eq (object (Derivation.to_dict a)) (object (Derivation.to_dict b))

abbrev pub resolution_eq : ResolutionRecord → ResolutionRecord → Bool
resolution_eq a b = json_eq (object (Resolution.to_dict a)) (object (Resolution.to_dict b))

abbrev pub event_eq : ConflictLifecycleEvent → ConflictLifecycleEvent → Bool
event_eq a b = json_eq (object (Lifecycle.to_dict a)) (object (Lifecycle.to_dict b))

-- `if name: d[name].append(op)`
unfoldable pub append_named : Option String → Op → Dict String (List Op) → Dict String (List Op)
append_named none op d = d
append_named (some name) op d = if name == "" then d else append_to name op d

abbrev pub with_claim : Host → PredicateRegistry → Facts → Claim → Dict String Claim → Facts
with_claim h r f c claims = record f {
  claims_by_id = claims;
  claim_refs_by_id = put c.claim_id (claim_ref_for_claim h r c) f.claim_refs_by_id;
  claim_ids_by_ref = add_to (claim_ref_for_claim h r c) c.claim_id f.claim_ids_by_ref;
}

unfoldable pub keep_claim : Host → PredicateRegistry → Facts → Claim → Result Facts
unfolding keep claim_ref_for_claim add_to claim_eq
keep_claim h r f c = do
  claims ← keep claim_eq "claim_id" c.claim_id c f.claims_by_id
  ok (with_claim h r f c claims)

unfoldable pub keep_retraction : Facts → Op → ClaimRetracted → Facts
unfolding append_named
keep_retraction f op r = record f {
  retractions_by_target = append_named r.target_claim_id op f.retractions_by_target;
  retractions_by_target_ref = append_named r.target_claim_ref op f.retractions_by_target_ref;
  retractions_by_superseder = append_named r.supersedes_claim_id op f.retractions_by_superseder;
  retractions_by_superseder_ref =
      append_named r.supersedes_claim_ref op f.retractions_by_superseder_ref;
}

-- A round of the loop, by the class of the operation.
unfoldable pub fold_body : Host → PredicateRegistry → Facts → Op → Body → Result Facts
unfolding keep keep_claim keep_retraction
fold_body h r f op (source_added s) = do
  sources ← keep source_eq "source_id" s.source_id s f.sources_by_id
  ok (record f { sources_by_id = sources })
fold_body h r f op (evidence_added e) = do
  evidence ← keep evidence_eq "evidence_id" e.evidence_id e f.evidence_by_id
  ok (record f { evidence_by_id = evidence })
fold_body h r f op (claim_added c) = keep_claim h r f c
fold_body h r f op (claim_retracted x) = ok (keep_retraction f op x)
fold_body h r f op (decision_added d) = do
  decisions ← keep decision_eq "decision_id" d.decision_id d f.decisions_by_id
  ok (record f { decisions_by_id = decisions })
fold_body h r f op (derivation_added d) = do
  derivations ← keep derivation_eq "derivation_id" d.derivation_id d f.derivations_by_id
  ok (record f { derivations_by_id = derivations })
fold_body h r f op (resolution_added x) = do
  resolutions ← keep resolution_eq "resolution_id" x.resolution_id x f.resolutions_by_id
  ok (record f { resolutions_by_id = resolutions })
fold_body h r f op (conflict_lifecycle_event_added e) = do
  events ← keep event_eq "event_id" e.event_id e f.lifecycle_events_by_id
  ok (record f { lifecycle_events_by_id = events })

unfoldable pub fold_ops : Host → PredicateRegistry → Facts → List Op → Result Facts
unfolding fold_body
fold_ops h r f [] = ok f
fold_ops h r f (op ∷ ops) = do next ← fold_body h r f op op.body; fold_ops h r next ops
