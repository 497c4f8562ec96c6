-- ===== src/Materialize/State.antt =====
-- `MemoryState` and `materialize`. The cache `direct_conflict_indexes`, which the comparison of
-- states leaves out, is not part of the state here; that building it may raise is.
pub mod ActiveClaims
use statefuse.Base.{String, Bool, true, false, Option, none, some, List, [], ◌∷◌, if◌then◌else◌}
use statefuse.Base.Dict.{Dict, values}
use statefuse.Base.Order.{string_key, pair_key, option_key}
use statefuse.Base.Sorted.{sorted}
use statefuse.Base.Groups.{sorted_items}
use statefuse.Result.{Result, ok, ◌>>=◌}
use statefuse.Host.{Host, parse_utc_iso}
use statefuse.Ops.{Op}
use statefuse.OpLog.{OpLog, iter_ops}
use statefuse.Model.ClaimKey.{ClaimKey, claim_key_key}
use statefuse.Model.Source.{Source}
use statefuse.Model.Evidence.{Evidence}
use statefuse.Model.Claim.{Claim}
use statefuse.Model.Decision.{Decision}
use statefuse.Model.Derivation.{Derivation}
use statefuse.Model.Resolution.{ResolutionRecord}
use statefuse.Model.Lifecycle.{ConflictLifecycleEvent}
use statefuse.Conflict.{PredicateRegistry}
use statefuse.Conflict.Identity.{ConflictSet}
use statefuse.Conflict.Detect.{DetectionContext, Detector, run_conflict_detectors}
use statefuse.Materialize.Facts.{Facts, no_facts, fold_ops}
use statefuse.Materialize.Active.{
  Scope, Split, split_claims, inactive_claim_ids, active_claims_by_key,
}
use statefuse.Materialize.History.{
  Lane, Histories, group_resolution_history, group_lifecycle_history,
}
use statefuse.Materialize.Lifecycle.{Fold, fold_lifecycle}
use statefuse.Materialize.Indexes.{
  sort_decisions, sort_retractions, sort_sets, claim_ids_by_evidence_id, claim_ids_by_derivation_id,
  evidence_ids_by_source_id, resolution_ids_by_claim_id, conflicts_under, conflicts_by_key,
  claims_of_keys, read_indexes,
}

pub record MemoryState : Type 0 where
  pub evidence_by_id : Dict String Evidence
  pub active_claims : Dict ClaimKey (List Claim)
  pub active_decisions : List Decision
  pub conflicts : List ConflictSet
  pub claims_by_id : Dict String Claim
  pub claim_refs_by_id : Dict String String
  pub claim_ids_by_ref : Dict String (List String)
  pub retractions_by_target : Dict String (List Op)
  pub retractions_by_target_ref : Dict String (List Op)
  pub retractions_by_superseder : Dict String (List Op)
  pub retractions_by_superseder_ref : Dict String (List Op)
  pub inactive_claims : List String
  pub inapplicable_claim_ids : List String
  pub sources_by_id : Dict String Source
  pub derivations_by_id : Dict String Derivation
  pub resolutions_by_id : Dict String ResolutionRecord
  pub lifecycle_events_by_id : Dict String ConflictLifecycleEvent
  pub resolution_history : Histories ResolutionRecord
  pub lifecycle_history : Histories ConflictLifecycleEvent
  pub lifecycle : Fold
  pub conflicts_by_id : Dict String ConflictSet
  pub conflicts_by_ref : Dict String ConflictSet
  pub conflicts_under_key : Dict ClaimKey (List ConflictSet)
  pub claims_of_evidence : Dict String (List String)
  pub claims_of_derivation : Dict String (List String)
  pub evidence_of_source : Dict String (List String)
  pub resolutions_of_claim : Dict String (List String)
  pub predicate_registry : PredicateRegistry

-- `if valid_at is not None: parse_utc_iso(valid_at)`
unfoldable pub check_instant : Host → Option String → Result (Unit {0})
check_instant h none = ok tt
check_instant h (some at) = do _ ← parse_utc_iso h at; ok tt

abbrev pub in_key_order : {V : Type 0} → Dict String V → Dict String V
in_key_order d = sorted_items (λ v. v) d

abbrev pub unsplit : Split
unsplit = record { active = []; inapplicable = [] }

-- What the detectors are shown.
abbrev pub context_of :
    PredicateRegistry → Facts → Dict ClaimKey (List Claim) → List Decision → DetectionContext
context_of r f active decisions = record {
  active_claims_by_key = active;
  claims_by_id = claims_of_keys [] active;
  records = record {
    evidence_by_id = f.evidence_by_id;
    sources_by_id = f.sources_by_id;
    derivations_by_id = f.derivations_by_id;
  };
  active_decisions = decisions;
  predicate_registry = r;
}

-- The end of `materialize`, from the values of its variables.
abbrev pub state_of :
    PredicateRegistry
    → Facts
    → Split
    → List Decision
    → List ConflictSet
    → Histories ResolutionRecord
    → Histories ConflictLifecycleEvent
    → Fold
    → MemoryState
state_of r f s decisions conflicts resolutions events fold = record {
  evidence_by_id = f.evidence_by_id;
  active_claims = active_claims_by_key s;
  active_decisions = decisions;
  conflicts = conflicts;
  claims_by_id = f.claims_by_id;
  claim_refs_by_id = f.claim_refs_by_id;
  claim_ids_by_ref = sort_sets f.claim_ids_by_ref;
  retractions_by_target = sort_retractions f.retractions_by_target;
  retractions_by_target_ref = sort_retractions f.retractions_by_target_ref;
  retractions_by_superseder = sort_retractions f.retractions_by_superseder;
  retractions_by_superseder_ref = sort_retractions f.retractions_by_superseder_ref;
  inactive_claims = inactive_claim_ids f;
  inapplicable_claim_ids = s.inapplicable;
  sources_by_id = in_key_order f.sources_by_id;
  derivations_by_id = in_key_order f.derivations_by_id;
  resolutions_by_id = in_key_order f.resolutions_by_id;
  lifecycle_events_by_id = in_key_order f.lifecycle_events_by_id;
  resolution_history = resolutions;
  lifecycle_history = events;
  lifecycle = fold;
  conflicts_by_id = conflicts_under (λ c. c.conflict_id) [] conflicts;
  conflicts_by_ref = conflicts_under (λ c. c.conflict_ref) [] conflicts;
  conflicts_under_key = conflicts_by_key conflicts;
  claims_of_evidence = claim_ids_by_evidence_id (values f.claims_by_id);
  claims_of_derivation = claim_ids_by_derivation_id (values f.claims_by_id);
  evidence_of_source = evidence_ids_by_source_id (values f.evidence_by_id);
  resolutions_of_claim = resolution_ids_by_claim_id (values f.resolutions_by_id);
  predicate_registry = r;
}

-- From the facts on.
unfoldable pub materialize_facts :
    Host → PredicateRegistry → List Detector → Scope → Facts → Result MemoryState
unfolding split_claims inactive_claim_ids active_claims_by_key sort_decisions run_conflict_detectors
    group_resolution_history group_lifecycle_history fold_lifecycle conflicts_under claims_of_keys
    read_indexes
materialize_facts h r detectors scope f = do
  s ← split_claims h (inactive_claim_ids f) scope unsplit f.claims_by_id
  decisions ← sort_decisions h (values f.decisions_by_id)
  conflicts ← run_conflict_detectors h (context_of r f (active_claims_by_key s) decisions) detectors
  _ ← read_indexes h (active_claims_by_key s)
  resolutions ← group_resolution_history h f.resolutions_by_id
  events ← group_lifecycle_history h f.lifecycle_events_by_id
  fold ← fold_lifecycle h (record {
    resolutions_by_id = f.resolutions_by_id;
    resolutions_by_lane = resolutions.1;
    events_by_lane = events.1;
    conflicts_by_ref = conflicts_under (λ c. c.conflict_ref) [] conflicts;
    valid_at = scope.valid_at;
  })
  ok (state_of r f s decisions conflicts resolutions events fold)

unfoldable pub materialize :
    Host → PredicateRegistry → List Detector → Scope → OpLog → Result MemoryState
unfolding check_instant fold_ops materialize_facts
materialize h r detectors scope log = do
  _ ← check_instant h scope.valid_at
  f ← fold_ops h r no_facts (iter_ops log)
  materialize_facts h r detectors scope f
