-- ===== src/Materialize/Incremental/Start.antt =====
-- The variables of `apply_operations_incrementally` before its loop.
pub mod Consistent
use statefuse.Base.{List, [], ◌∷◌, String}
use statefuse.Base.Dict.{Dict, put}
use statefuse.Base.Order.{string_key}
use statefuse.Model.Decision.{Decision}
use statefuse.Materialize.State.{MemoryState}
use statefuse.Materialize.Incremental.{Affected, Working}

-- `{item.decision_id: item for item in decisions}`
unfoldable pub decisions_under : Dict String Decision → List Decision → Dict String Decision
unfolding put
decisions_under d [] = d
decisions_under d (x ∷ l) = decisions_under (put x.decision_id x d) l

abbrev pub none_affected : Affected
none_affected = record { keys = []; claim_ids = []; conflict_refs = []; resolution_ids = [] }

unfoldable pub working_of : MemoryState → Working
unfolding decisions_under
working_of s = record {
  facts = record {
    sources_by_id = s.sources_by_id;
    evidence_by_id = s.evidence_by_id;
    claims_by_id = s.claims_by_id;
    claim_refs_by_id = s.claim_refs_by_id;
    claim_ids_by_ref = s.claim_ids_by_ref;
    decisions_by_id = decisions_under [] s.active_decisions;
    derivations_by_id = s.derivations_by_id;
    resolutions_by_id = s.resolutions_by_id;
    lifecycle_events_by_id = s.lifecycle_events_by_id;
    retractions_by_target = s.retractions_by_target;
    retractions_by_target_ref = s.retractions_by_target_ref;
    retractions_by_superseder = s.retractions_by_superseder;
    retractions_by_superseder_ref = s.retractions_by_superseder_ref;
  };
  inactive = s.inactive_claims;
  inapplicable = s.inapplicable_claim_ids;
  active = s.active_claims;
  claims_of_evidence = s.claims_of_evidence;
  claims_of_derivation = s.claims_of_derivation;
  evidence_of_source = s.evidence_of_source;
  resolutions_of_claim = s.resolutions_of_claim;
  resolution_history = s.resolution_history;
  lifecycle_history = s.lifecycle_history;
  affected = none_affected;
}
