-- ===== src/Materialize/Incremental/Preserved.antt =====
-- Every round of the incremental loop leaves the variables consistent.
use statefuse.Base.{
  String, ◌≡◌, refl, sym, ◌∙◌, ap, subst, Bool, true, false, Option, Option-cases, none, some, List,
  [], ◌∷◌, inl, inr, if◌then◌else◌, arith,
}
use statefuse.Base.Dict.{Dict, get, put}
use statefuse.Base.Order.{string_key}
use statefuse.Base.Groups.{group}
use statefuse.Result.{Result, ok, raise, collision, ◌>>=◌, >>=-eq-ok, ok-injective}
use statefuse.Host.{Host}
use statefuse.Model.Claim.{Claim}
use statefuse.Model.Source.{Source}
use statefuse.Model.Resolution.{ResolutionRecord}
use statefuse.Model.Lifecycle.{ConflictLifecycleEvent}
use statefuse.Ops.{
  Op, Body, source_added, evidence_added, claim_added, claim_retracted, decision_added,
  derivation_added, resolution_added, conflict_lifecycle_event_added,
}
use statefuse.Conflict.{PredicateRegistry}
use statefuse.Conflict.Detect.{claim_eq}
use statefuse.Materialize.Facts.{resolution_eq, event_eq}
use statefuse.Materialize.Incremental.{Working, insert_immutable, mark_source, add_claim}
use statefuse.Materialize.Incremental.Rounds.{
  apply_source, apply_evidence, apply_decision, apply_derivation, apply_claim, apply_resolution,
  apply_lifecycle_event, apply_body, apply_ops,
}
use statefuse.Materialize.Incremental.Consistent.{
  IsConsistent, Same, same, Same-IsConsistent, mark_source-Same, each-Same,
}
use statefuse.Materialize.Incremental.Retraction.{apply_retraction-IsConsistent}
use statefuse.Materialize.Incremental.NewClaim.{add_claim-IsConsistent}

-- The operation is about neither a claim nor a retraction.
abbrev pub is_neutral : Body → Bool
is_neutral (claim_added c) = false
is_neutral (claim_retracted x) = false
is_neutral _ = true

module _ (w : Working) where
  abbrev with_sources : Dict String Source → Working
  with_sources d = record w { facts = record w.facts { sources_by_id = d } }

  source-Same :
      (ids : List String) (d : Dict String Source) (b : Bool)
      → Same w (if b then mark_source ids (with_sources d) else with_sources d)
  source-Same ids d true = mark_source-Same ids (with_sources d)
  source-Same ids d false = same w

  apply_resolution-Same :
      (h : Host) (r : ResolutionRecord) {v : Working} → apply_resolution h w r ≡ ok v → Same w v
  unfolding apply_resolution
  apply_resolution-Same h r done =
      let (p, _, next) =
        >>=-eq-ok
          (insert_immutable resolution_eq "resolution_id" r.resolution_id r
            w.facts.resolutions_by_id)
          _ done in
      each-Same w _ _ (λ histories. same w) next

  apply_lifecycle_event-Same :
      (h : Host) (e : ConflictLifecycleEvent) {v : Working}
      → apply_lifecycle_event h w e ≡ ok v
      → Same w v
  unfolding apply_lifecycle_event
  apply_lifecycle_event-Same h e done =
      let (p, _, next) =
        >>=-eq-ok (insert_immutable event_eq "event_id" e.event_id e w.facts.lifecycle_events_by_id)
          _ done in
      each-Same w _ _ (λ histories. same w) next

  apply_claim-IsConsistent :
      (h : Host) (r : PredicateRegistry) (c : Claim) {v : Working}
      → IsConsistent w
      → apply_claim h r w c ≡ ok v
      → IsConsistent v
  unfolding apply_claim insert_immutable
  apply_claim-IsConsistent h r c {v} before done =
      elim (Option-cases (get c.claim_id w.facts.claims_by_id)) [
        | inl new ↦
            subst IsConsistent (ok-injective (sym (ap round new) ∙ done))
              (add_claim-IsConsistent h r w c before new)
        | inr (x, there) ↦ known x (claim_eq x c) (sym (ap round there) ∙ done)
      ]
    where
      rest : Dict String Claim × Bool → Result Working
      rest p = ok (if p.1 then add_claim h r w c p.0 else w)

      checked : Bool → Result (Dict String Claim × Bool)
      checked b =
          if b then ok (w.facts.claims_by_id, false) else raise (collision "claim_id" c.claim_id)

      round : Option Claim → Result Working
      round o =
          (elim o [
            | none ↦ ok (put c.claim_id c w.facts.claims_by_id, true)
            | some x ↦ checked (claim_eq x c)
          ])
          >>= rest

      known : (x : Claim) (b : Bool) → (checked b >>= rest) ≡ ok v → IsConsistent v
      known x true e = subst IsConsistent (ok-injective e) before
      known x false e = ground (arith, e)

  -- The other operations.
  pub apply_body-Same :
      (h : Host) (r : PredicateRegistry) (op : Op) (b : Body) {v : Working}
      → is_neutral b ≡ true
      → apply_body h r w op b ≡ ok v
      → Same w v
  unfolding apply_body apply_source apply_evidence apply_decision apply_derivation
  apply_body-Same h r op (source_added s) n done =
      each-Same w _ _ (λ p. source-Same (group s.source_id w.evidence_of_source) p.0 p.1) done
  apply_body-Same h r op (evidence_added e) n done = each-Same w _ _ (λ p. same w) done
  apply_body-Same h r op (decision_added d) n done = each-Same w _ _ (λ p. same w) done
  apply_body-Same h r op (derivation_added d) n done = each-Same w _ _ (λ p. same w) done
  apply_body-Same h r op (resolution_added x) n done = apply_resolution-Same h x done
  apply_body-Same h r op (conflict_lifecycle_event_added e) n done =
      apply_lifecycle_event-Same h e done
  apply_body-Same h r op (claim_added c) n done = cc n
  apply_body-Same h r op (claim_retracted x) n done = cc n

  pub apply_body-IsConsistent :
      (h : Host) (r : PredicateRegistry) (op : Op) (b : Body) {v : Working}
      → IsConsistent w
      → apply_body h r w op b ≡ ok v
      → IsConsistent v
  unfolding apply_body
  apply_body-IsConsistent h r op (claim_added c) before done =
      apply_claim-IsConsistent h r c before done
  apply_body-IsConsistent h r op (claim_retracted x) before done =
      subst IsConsistent (ok-injective done) (apply_retraction-IsConsistent w op x before)
  apply_body-IsConsistent h r op b {v} before done =
      Same-IsConsistent w v (apply_body-Same h r op b refl done) before

-- If the incremental loop runs through from consistent variables, they are consistent afterwards.
pub apply_ops-IsConsistent :
    (h : Host) (r : PredicateRegistry) (w : Working) (ops : List Op) {v : Working}
    → IsConsistent w
    → apply_ops h r w ops ≡ ok v
    → IsConsistent v
unfolding apply_ops
apply_ops-IsConsistent h r w [] before done = subst IsConsistent (ok-injective done) before
apply_ops-IsConsistent h r w (op ∷ ops) before done =
    let (next, first, rest) = >>=-eq-ok (apply_body h r w op op.body) _ done in
    apply_ops-IsConsistent h r next ops (apply_body-IsConsistent w h r op op.body before first) rest
