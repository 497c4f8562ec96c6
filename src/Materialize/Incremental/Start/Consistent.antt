-- ===== src/Materialize/Incremental/Start/Consistent.antt =====
-- A state that `materialize` makes with no instant and no context gives consistent variables.
use statefuse.Base.{
  String, ◌≡◌, refl, sym, ◌∙◌, ap, ap₂, subst, true, ◌||◌, none, List, [], ◌∷◌, arith, any, is_some,
}
use statefuse.Base.Dict.{Dict, IsDict, get, keys}
use statefuse.Base.Order.{string_key}
use statefuse.Base.Sorted.{contains, contains-sorted}
use statefuse.Base.Groups.{group}
use statefuse.Result.{ok}
use statefuse.Host.{Host}
use statefuse.Model.ClaimKey.{claim_key_key}
use statefuse.Model.Claim.{Claim}
use statefuse.Ops.{Op}
use statefuse.OpLog.{OpLog, iter_ops}
use statefuse.Conflict.{PredicateRegistry}
use statefuse.Conflict.Detect.{Detector}
use statefuse.Conflict.Overlap.{claim_applies}
use statefuse.Materialize.Facts.{Facts, no_facts}
use statefuse.Materialize.Facts.Log.{Collected, fold_ops-Collected}
use statefuse.Materialize.Facts.Filed.{no_facts-IsFiled, fold_ops-IsFiled}
use statefuse.Materialize.Facts.Withdrawn.{any-eq, inactive-withdrawn}
use statefuse.Materialize.Active.{Scope, inactive_claim_ids}
use statefuse.Materialize.Indexes.{sort_retractions, sort_sets}
use statefuse.Materialize.State.{MemoryState, materialize}
use statefuse.Materialize.State.ActiveClaims.{
  materialize-MadeFrom, materialize_active, materialize_claims,
}
use statefuse.Materialize.Incremental.Sets.{contains-inactive}
use statefuse.Materialize.Incremental.Consistent.{IsConsistent}
use statefuse.Materialize.Incremental.Start.{working_of}

abbrev pub unscoped : Scope
unscoped = record { valid_at = none; context = none }

contains-sort_sets :
    (ref id : String) (d : Dict String (List String))
    → contains id (group ref (sort_sets d)) ≡ contains id (group ref d)
unfolding group get
contains-sort_sets ref id [] = refl
contains-sort_sets ref id ((k, ids) ∷ d) =
    ground (arith, contains-sorted id ids, contains-sort_sets ref id d)

has-sort_retractions :
    (id : String) (d : Dict String (List Op))
    → is_some (get id (sort_retractions d)) ≡ is_some (get id d)
unfolding get
has-sort_retractions id [] = refl
has-sort_retractions id ((k, ops) ∷ d) = ground (arith, has-sort_retractions id d)

keys-sort_retractions : (d : Dict String (List Op)) → keys (sort_retractions d) ≡ keys d
keys-sort_retractions [] = refl
keys-sort_retractions ((k, ops) ∷ d) = ap (λ l. k ∷ l) (keys-sort_retractions d)

-- Sorting changes no one's withdrawal.
inactive-sorted :
    (f g : Facts) (id : String)
    → g.claim_ids_by_ref ≡ sort_sets f.claim_ids_by_ref
    → g.retractions_by_target ≡ sort_retractions f.retractions_by_target
    → g.retractions_by_target_ref ≡ sort_retractions f.retractions_by_target_ref
    → contains id (inactive_claim_ids g) ≡ contains id (inactive_claim_ids f)
inactive-sorted f g id refs by_target by_target_ref =
    contains-inactive id g
    ∙ ap₂ (λ a b. a || b)
        (ap (λ d. is_some (get id d)) by_target ∙ has-sort_retractions id f.retractions_by_target)
        (ap₂ (λ d e. any (λ ref. contains id (group ref d)) (keys e)) refs by_target_ref
          ∙ ap (λ ks. any (λ ref. contains id (group ref (sort_sets f.claim_ids_by_ref))) ks)
              (keys-sort_retractions f.retractions_by_target_ref)
          ∙ any-eq _ _ (keys f.retractions_by_target_ref)
              (λ ref. contains-sort_sets ref id f.claim_ids_by_ref))
    ∙ sym (contains-inactive id f)

pub claim_applies_unscoped : (h : Host) (c : Claim) → claim_applies h c none none ≡ ok true
unfolding claim_applies
claim_applies_unscoped h c = refl

module _ (h : Host) (r : PredicateRegistry) (detectors : List Detector) where
  pub working_of-IsConsistent :
      (log : OpLog) {s : MemoryState}
      → materialize h r detectors unscoped log ≡ ok s
      → IsConsistent (working_of s)
  unfolding working_of
  working_of-IsConsistent log {s} done =
      let m = materialize-MadeFrom h r detectors unscoped log done in
      let inactive : (id : String)
          → contains id s.inactive_claims ≡ contains id (inactive_claim_ids m.facts) =
        λ id. ap (contains id) m.inactive in
      record {
        inactive = λ id.
            inactive id
            ∙ sym (
                inactive-sorted m.facts (working_of s).facts id m.refs m.by_target m.by_target_ref);
        filed = λ ref id there.
            ap (λ d. is_some (get id d)) m.claims
            ∙ fold_ops-IsFiled h r no_facts (iter_ops log) no_facts-IsFiled m.folded ref id (
                sym (
                  ap (λ d. contains id (group ref d)) m.refs
                  ∙ contains-sort_sets ref id m.facts.claim_ids_by_ref)
                ∙ there);
        keyed = λ id c there. (materialize_claims h r detectors unscoped log id c done there).1;
        active = λ c key.
            let q = materialize_active h r detectors unscoped log c key done in
            let withdrawn =
              inactive c.claim_id ∙ inactive-withdrawn h r (iter_ops log) m.folded c.claim_id in
            (
              λ there. let p = q.0 there in (p.0, p.1, withdrawn ∙ p.2),
              λ p. q.1 (p.0, p.1, sym withdrawn ∙ p.2, claim_applies_unscoped h c),
            );
      }

  -- The facts that the loop starts from are those of the log.
  pub working_of-Seen :
      (log : OpLog) {s : MemoryState}
      → materialize h r detectors unscoped log ≡ ok s
      → Collected h r no_facts (iter_ops log) (working_of s).facts
  unfolding working_of
  working_of-Seen log done =
      let m = materialize-MadeFrom h r detectors unscoped log done in
      let all = fold_ops-Collected h r no_facts (iter_ops log) m.folded in
      record {
        by_target = λ id.
            ap (λ d. is_some (get id d)) m.by_target
            ∙ has-sort_retractions id m.facts.retractions_by_target
            ∙ all.by_target id;
        by_target_ref = λ ref.
            ap (λ d. is_some (get ref d)) m.by_target_ref
            ∙ has-sort_retractions ref m.facts.retractions_by_target_ref
            ∙ all.by_target_ref ref;
        refs = λ ref id.
            ap (λ d. contains id (group ref d)) m.refs
            ∙ contains-sort_sets ref id m.facts.claim_ids_by_ref
            ∙ all.refs ref id;
        claims = λ id c there. all.claims id c (ap (get id) (sym m.claims) ∙ there);
        is_dict = λ d. subst IsDict (sym m.claims) (all.is_dict d);
      }
