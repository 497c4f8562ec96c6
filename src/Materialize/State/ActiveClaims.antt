-- ===== src/Materialize/State/ActiveClaims.antt =====
-- Which claims `materialize` presents as active.
use statefuse.Base.{
  String, ◌≡◌, sym, ◌∙◌, ap, subst, true, false, ◌↔◌, Option, none, some, List, [], inl, inr, ◌⊎◌,
  In,
}
use statefuse.Base.Dict.{get, values}
use statefuse.Base.Order.{string_key}
use statefuse.Base.Sorted.{sorted_by}
use statefuse.Base.Elements.{In-sorted}
use statefuse.Base.Groups.{group, get-sorted_items, mapped}
use statefuse.Result.{ok, >>=-eq-ok, ok-injective}
use statefuse.Host.{Host}
use statefuse.OpLog.{OpLog, iter_ops}
use statefuse.Model.ClaimKey.{ClaimKey, claim_key_key}
use statefuse.Model.Claim.{Claim}
use statefuse.Conflict.{PredicateRegistry}
use statefuse.Conflict.Detect.{Detector, run_conflict_detectors}
use statefuse.Conflict.Overlap.{claim_applies}
use statefuse.Materialize.Facts.{Facts, no_facts, fold_ops}
use statefuse.Materialize.Facts.Log.{AddedBy, fold_ops-Collected, is_withdrawn}
use statefuse.Materialize.Facts.Withdrawn.{inactive-withdrawn}
use statefuse.Materialize.Active.{
  Scope, Split, split_claims, inactive_claim_ids, active_claims_by_key,
}
use statefuse.Materialize.Active.Exact.{split_claims-Stored}
use statefuse.Materialize.History.{group_resolution_history, group_lifecycle_history}
use statefuse.Materialize.Lifecycle.{FoldInput, fold_lifecycle}
use statefuse.Materialize.Indexes.{
  sort_decisions, sort_sets, sort_retractions, conflicts_under, read_indexes,
}
use statefuse.Materialize.State.{
  MemoryState, unsplit, check_instant, context_of, materialize_facts, materialize,
}

module _ (h : Host) (r : PredicateRegistry) (detectors : List Detector) (scope : Scope) where
  -- The facts and the division of the claims that a state was made from.
  pub record MadeFrom (log : OpLog) (state : MemoryState) : Type 0 where
    pub facts : Facts
    pub split : Split
    pub folded : fold_ops h r no_facts (iter_ops log) ≡ ok facts
    pub divided :
        split_claims h (inactive_claim_ids facts) scope unsplit facts.claims_by_id ≡ ok split
    pub claims : state.claims_by_id ≡ facts.claims_by_id
    pub active : state.active_claims ≡ active_claims_by_key split
    pub inactive : state.inactive_claims ≡ inactive_claim_ids facts
    pub refs : state.claim_ids_by_ref ≡ sort_sets facts.claim_ids_by_ref
    pub by_target : state.retractions_by_target ≡ sort_retractions facts.retractions_by_target
    pub by_target_ref :
        state.retractions_by_target_ref ≡ sort_retractions facts.retractions_by_target_ref
    pub input : FoldInput
    pub by_ref : input.conflicts_by_ref ≡ conflicts_under (λ c. c.conflict_ref) [] state.conflicts
    pub lifecycle : fold_lifecycle h input ≡ ok state.lifecycle

  facts_parts :
      (f : Facts) {state : MemoryState}
      → materialize_facts h r detectors scope f ≡ ok state
      → (s : Split) × (split_claims h (inactive_claim_ids f) scope unsplit f.claims_by_id ≡ ok s)
        × (state.claims_by_id ≡ f.claims_by_id)
        × (state.active_claims ≡ active_claims_by_key s)
        × (state.inactive_claims ≡ inactive_claim_ids f)
        × (state.claim_ids_by_ref ≡ sort_sets f.claim_ids_by_ref)
        × (state.retractions_by_target ≡ sort_retractions f.retractions_by_target)
        × (state.retractions_by_target_ref ≡ sort_retractions f.retractions_by_target_ref)
        × (i : FoldInput) × (i.conflicts_by_ref
            ≡ conflicts_under (λ c. c.conflict_ref) [] state.conflicts)
        × (fold_lifecycle h i ≡ ok state.lifecycle)
  unfolding materialize_facts
  facts_parts f done =
      let (s, divided, d1) =
        >>=-eq-ok (split_claims h (inactive_claim_ids f) scope unsplit f.claims_by_id) _ done in
      let (decisions, _, d2) = >>=-eq-ok (sort_decisions h (values f.decisions_by_id)) _ d1 in
      let (conflicts, _, d3) =
        >>=-eq-ok
          (run_conflict_detectors h (context_of r f (active_claims_by_key s) decisions) detectors) _
          d2 in
      let (_, _, d0) = >>=-eq-ok (read_indexes h (active_claims_by_key s)) _ d3 in
      let (resolutions, _, d4) = >>=-eq-ok (group_resolution_history h f.resolutions_by_id) _ d0 in
      let (events, _, d5) = >>=-eq-ok (group_lifecycle_history h f.lifecycle_events_by_id) _ d4 in
      let (fold, folded, d6) =
        >>=-eq-ok
          (fold_lifecycle h (record {
            resolutions_by_id = f.resolutions_by_id;
            resolutions_by_lane = resolutions.1;
            events_by_lane = events.1;
            conflicts_by_ref = conflicts_under (λ c. c.conflict_ref) [] conflicts;
            valid_at = scope.valid_at;
          }))
          _ d5 in
      let same = sym (ok-injective d6) in
      (
        s,
        divided,
        ap (λ x. x.claims_by_id) same,
        ap (λ x. x.active_claims) same,
        ap (λ x. x.inactive_claims) same,
        ap (λ x. x.claim_ids_by_ref) same,
        ap (λ x. x.retractions_by_target) same,
        ap (λ x. x.retractions_by_target_ref) same,
        record {
          resolutions_by_id = f.resolutions_by_id;
          resolutions_by_lane = resolutions.1;
          events_by_lane = events.1;
          conflicts_by_ref = conflicts_under (λ c. c.conflict_ref) [] conflicts;
          valid_at = scope.valid_at;
        },
        ap (λ x. conflicts_under (λ c. c.conflict_ref) [] x.conflicts) (sym same),
        folded ∙ ap (λ x. ok x.lifecycle) (sym same),
      )

  pub materialize-MadeFrom :
      (log : OpLog) {state : MemoryState}
      → materialize h r detectors scope log ≡ ok state
      → MadeFrom log state
  unfolding materialize
  materialize-MadeFrom log done =
      let (_, _, d1) = >>=-eq-ok (check_instant h scope.valid_at) _ done in
      let (f, folded, d2) = >>=-eq-ok (fold_ops h r no_facts (iter_ops log)) _ d1 in
      let (
        s, divided, claims, active, inactive, refs, by_target, by_target_ref, input, by_ref,
        lifecycle,
      ) =
        facts_parts f d2 in
      record {
        facts = f;
        split = s;
        folded = folded;
        divided = divided;
        claims = claims;
        active = active;
        inactive = inactive;
        refs = refs;
        by_target = by_target;
        by_target_ref = by_target_ref;
        input = input;
        by_ref = by_ref;
        lifecycle = lifecycle;
      }

  In-active_claims :
      (c : Claim) (key : ClaimKey) (s : Split)
      → In c (group key (active_claims_by_key s)) ↔ In c (group key s.active)
  unfolding active_claims_by_key group
  In-active_claims c key s =
      subst
        (λ o.
          In c (elim o [ none ↦ [] | some l ↦ l ])
          ↔ In c (elim (get key s.active) [ none ↦ [] | some l ↦ l ]))
        (sym (get-sorted_items (sorted_by (λ x. x.claim_id)) key s.active)) (go (get key s.active))
    where
      go :
          (o : Option (List Claim))
          → In c (elim (mapped (sorted_by (λ x. x.claim_id)) o) [ none ↦ [] | some l ↦ l ])
            ↔ In c (elim o [ none ↦ [] | some l ↦ l ])
      go none = (λ q. q, λ q. q)
      go (some l) = In-sorted (λ x. x.claim_id) c l

  -- Every claim of a materialised state stands under its identifier, and an operation of the log
  -- added it.
  pub materialize_claims :
      (log : OpLog) (id : String) (c : Claim) {state : MemoryState}
      → materialize h r detectors scope log ≡ ok state
      → get id state.claims_by_id ≡ some c
      → AddedBy c (iter_ops log) × (c.claim_id ≡ id)
  unfolding get
  materialize_claims log id c done there =
      let m = materialize-MadeFrom log done in
      elim ((fold_ops-Collected h r no_facts (iter_ops log) m.folded).claims id c
        (ap (get id) (sym m.claims) ∙ there)) [ inl added ↦ added | inr old ↦ cc old ]

  -- If a log is materialised, then a claim is active under a key exactly if it is stored under its
  -- identifier, has that key, is withdrawn by no operation of the log, neither by its identifier
  -- nor by a reference under which a claim with its identifier was added, and applies at the
  -- instant and in the context that are asked for.
  pub materialize_active :
      (log : OpLog) (c : Claim) (key : ClaimKey) {state : MemoryState}
      → materialize h r detectors scope log ≡ ok state
      → In c (group key state.active_claims) ↔ (
          (get c.claim_id state.claims_by_id ≡ some c)
          × (c.key ≡ key)
          × (is_withdrawn h r (iter_ops log) c.claim_id ≡ false)
          × (claim_applies h c scope.valid_at scope.context ≡ ok true))
  unfolding get
  materialize_active log c key {state} done =
      let m = materialize-MadeFrom log done in
      let all = fold_ops-Collected h r no_facts (iter_ops log) m.folded in
      let withdrawn = inactive-withdrawn h r (iter_ops log) m.folded c.claim_id in
      let keyed = λ (id : String) (d : Claim) (there : get id m.facts.claims_by_id ≡ some d).
        from_log (all.claims id d there) in
      let stored =
        split_claims-Stored h (inactive_claim_ids m.facts) scope c key m.facts.claims_by_id
          (all.is_dict tt) keyed m.divided in
      let ordered = In-active_claims c key m.split in
      (
        λ there.
            let q = stored.0 (ordered.0 (subst (λ d. In c (group key d)) m.active there)) in
            (ap (get c.claim_id) m.claims ∙ q.0, q.1, sym withdrawn ∙ q.2.0, q.2.1),
        λ q.
            subst (λ d. In c (group key d)) (sym m.active)
              (ordered.1
                (stored.1 (ap (get c.claim_id) (sym m.claims) ∙ q.0, q.1, (withdrawn ∙ q.2, q.3)))),
      )
    where
      from_log :
          {d : Claim} {id : String}
          → (AddedBy d (iter_ops log) × (d.claim_id ≡ id)) ⊎ (get id [] ≡ some d)
          → d.claim_id ≡ id
      from_log (inl added) = added.1
      from_log (inr old) = cc old
