-- ===== src/Materialize/Incremental/Rounds.antt =====
-- The loop of `apply_operations_incrementally` over the operations, round by round. The conflicts of
-- the affected keys, which the function finds after the loop, are not part of the model.
use statefuse.Base.{List, [], ◌∷◌, ◌++◌, if◌then◌else◌}
use statefuse.Base.Order.{string_key, pair_key}
use statefuse.Base.Groups.{group, add_member}
use statefuse.Result.{Result, ok, ◌>>=◌}
use statefuse.Host.{Host}
use statefuse.Model.ClaimKey.{claim_key_key}
use statefuse.Model.Source.{Source}
use statefuse.Model.Evidence.{Evidence}
use statefuse.Model.Claim.{Claim}
use statefuse.Model.Decision.{Decision}
use statefuse.Model.Derivation.{Derivation}
use statefuse.Model.Resolution.{ResolutionRecord}
use statefuse.Model.Lifecycle.{ConflictLifecycleEvent}
use statefuse.Ops.{
  Op, Body, source_added, evidence_added, claim_added, claim_retracted, decision_added,
  derivation_added, resolution_added, conflict_lifecycle_event_added,
}
use statefuse.Ops.Retraction.{ClaimRetracted}
use statefuse.Conflict.{PredicateRegistry}
use statefuse.Conflict.Detect.{claim_eq}
use statefuse.Materialize.Facts.{
  source_eq, evidence_eq, decision_eq, derivation_eq, resolution_eq, event_eq,
}
use statefuse.Materialize.History.{append_resolution_history, append_lifecycle_history}
use statefuse.Materialize.Indexes.{opt_list, add_under}
use statefuse.Materialize.Incremental.{
  Working, insert_immutable, append_sorted_named, mark_claim_keys, mark, add_members, mark_source,
  add_claim, withdraw, given, targets_under, file_retraction,
}

unfoldable pub apply_source : Working → Source → Result Working
unfolding insert_immutable mark_source group
apply_source w s = do
  p ← insert_immutable source_eq "source_id" s.source_id s w.facts.sources_by_id
  let next = record w { facts = record w.facts { sources_by_id = p.0 } } in
      ok (if p.1 then mark_source (group s.source_id w.evidence_of_source) next else next)

unfoldable pub apply_evidence : Working → Evidence → Result Working
unfolding insert_immutable mark_claim_keys group add_under
apply_evidence w e = do
  p ← insert_immutable evidence_eq "evidence_id" e.evidence_id e w.facts.evidence_by_id
  ok (record w {
    facts = record w.facts { evidence_by_id = p.0 };
    evidence_of_source =
        if p.1
        then add_under (opt_list e.source_id) e.evidence_id w.evidence_of_source
        else w.evidence_of_source;
    affected = if p.1 then mark (group e.evidence_id w.claims_of_evidence) w else w.affected;
  })

unfoldable pub apply_claim : Host → PredicateRegistry → Working → Claim → Result Working
unfolding insert_immutable add_claim claim_eq
apply_claim h r w c = do
  p ← insert_immutable claim_eq "claim_id" c.claim_id c w.facts.claims_by_id
  ok (if p.1 then add_claim h r w c p.0 else w)

unfoldable pub apply_retraction : Working → Op → ClaimRetracted → Working
unfolding append_sorted_named add_members given targets_under withdraw
apply_retraction w op x =
    withdraw
      (add_members (targets_under (given x.target_claim_ref) w.facts.claim_ids_by_ref)
        (given x.target_claim_id))
      (file_retraction op x w)

unfoldable pub apply_decision : Working → Decision → Result Working
unfolding insert_immutable
apply_decision w d = do
  p ← insert_immutable decision_eq "decision_id" d.decision_id d w.facts.decisions_by_id
  ok (record w { facts = record w.facts { decisions_by_id = p.0 } })

unfoldable pub apply_derivation : Working → Derivation → Result Working
unfolding insert_immutable mark_claim_keys group
apply_derivation w d = do
  p ← insert_immutable derivation_eq "derivation_id" d.derivation_id d w.facts.derivations_by_id
  ok (record w {
    facts = record w.facts { derivations_by_id = p.0 };
    affected = if p.1 then mark (group d.derivation_id w.claims_of_derivation) w else w.affected;
  })

unfoldable pub apply_resolution : Host → Working → ResolutionRecord → Result Working
unfolding insert_immutable add_under add_member append_resolution_history
apply_resolution h w r = do
  p ← insert_immutable resolution_eq "resolution_id" r.resolution_id r w.facts.resolutions_by_id
  histories ←
      if p.1 then append_resolution_history h w.resolution_history r else ok w.resolution_history
  ok (record w {
    facts = record w.facts { resolutions_by_id = p.0 };
    resolution_history = histories;
    resolutions_of_claim =
        if p.1
        then add_under (r.selected_claim_ids ++ r.rejected_claim_ids ++ r.retained_claim_ids)
            r.resolution_id w.resolutions_of_claim
        else w.resolutions_of_claim;
    affected =
        if p.1
        then (record w.affected {
          conflict_refs = add_member r.conflict_ref w.affected.conflict_refs;
          resolution_ids = add_member r.resolution_id w.affected.resolution_ids;
        })
        else w.affected;
  })

unfoldable pub apply_lifecycle_event : Host → Working → ConflictLifecycleEvent → Result Working
unfolding insert_immutable add_member append_lifecycle_history
apply_lifecycle_event h w e = do
  p ← insert_immutable event_eq "event_id" e.event_id e w.facts.lifecycle_events_by_id
  histories ←
      if p.1 then append_lifecycle_history h w.lifecycle_history e else ok w.lifecycle_history
  ok (record w {
    facts = record w.facts { lifecycle_events_by_id = p.0 };
    lifecycle_history = histories;
    affected =
        if p.1
        then (record w.affected {
          conflict_refs = add_member e.conflict_ref w.affected.conflict_refs;
        })
        else w.affected;
  })

unfoldable pub apply_body : Host → PredicateRegistry → Working → Op → Body → Result Working
unfolding apply_source apply_evidence apply_claim apply_retraction apply_decision apply_derivation
    apply_resolution apply_lifecycle_event
apply_body h r w op (source_added s) = apply_source w s
apply_body h r w op (evidence_added e) = apply_evidence w e
apply_body h r w op (claim_added c) = apply_claim h r w c
apply_body h r w op (claim_retracted x) = ok (apply_retraction w op x)
apply_body h r w op (decision_added d) = apply_decision w d
apply_body h r w op (derivation_added d) = apply_derivation w d
apply_body h r w op (resolution_added x) = apply_resolution h w x
apply_body h r w op (conflict_lifecycle_event_added e) = apply_lifecycle_event h w e

unfoldable pub apply_ops : Host → PredicateRegistry → Working → List Op → Result Working
unfolding apply_body
apply_ops h r w [] = ok w
apply_ops h r w (op ∷ ops) = do next ← apply_body h r w op op.body; apply_ops h r next ops
