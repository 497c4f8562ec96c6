-- ===== src/Materialize/Lifecycle/ByLane.antt =====
-- The fold of a conflict's life, lane by lane, and which resolutions are in force.
use statefuse.Base.{
  String, ◌≡◌, refl, sym, ◌∙◌, ap, ap₂, subst, ◌↔◌, true, false, Option, none, some, if◌then◌else◌,
  arith, inl, inr, Bool-cases, Option-cases, is_some,
}
use statefuse.Base.Dict.{get, keys}
use statefuse.Base.Order.{string_key, pair_key, option_key, ◌==◌}
use statefuse.Base.Sorted.{contains, sorted, contains-sorted, contains-keys}
use statefuse.Result.{ok, >>=-eq-ok, ok-injective}
use statefuse.Host.{Host}
use statefuse.Conflict.Identity.{ConflictSet, unique, claim_ids_of}
use statefuse.Model.Resolution.{ResolutionRecord}
use statefuse.Materialize.History.{Lane}
use statefuse.Materialize.Lifecycle.{
  LaneState, fresh, FoldInput, Fold, fold_lane, fold_lanes, all_lanes, no_fold, fold_lifecycle,
  judge, observed_matches, subset, outcome_fits, classified,
}
use statefuse.Materialize.Lifecycle.Lanes.{
  LaneView, view, settled_by, unsettled, lane_view, fold_lane_new, after_lanes, fold_lanes-folded,
  view-fold_lanes,
}
use statefuse.Materialize.Lifecycle.Refined.{view-settle_conflicts, chosen_by}

module _ (h : Host) (i : FoldInput) (lane : Lane) where
  after_true : (s : LaneState) → after_lanes true s (view no_fold lane) ≡ unsettled s
  unfolding get
  after_true s = go s.active s.status
    where
      go :
          (r : Option ResolutionRecord) (t : Option String)
          → let s : LaneState = record { active = r; status = t } in
            after_lanes true s (view no_fold lane) ≡ unsettled s
      go none none = refl
      go none (some t) = refl
      go (some r) none = refl
      go (some r) (some t) = refl

  after_false : after_lanes false fresh (view no_fold lane) ≡ unsettled fresh
  unfolding get
  after_false = refl

  folded_lane :
      {f : Fold}
      → fold_lanes h i no_fold (sorted (all_lanes i)) ≡ ok f
      → (s : LaneState) × (fold_lane h i lane ≡ ok s) × (view f lane ≡ unsettled s)
  folded_lane done = elim (Bool-cases (contains lane (all_lanes i))) [
    | inl there ↦
        let there' = contains-sorted lane (all_lanes i) ∙ there in
        let (s, folded) = fold_lanes-folded h i lane no_fold (sorted (all_lanes i)) done there' in
        (
          s,
          folded,
          view-fold_lanes h i lane s no_fold (sorted (all_lanes i)) folded done
              ∙ ap (λ b. after_lanes b s (view no_fold lane)) there'
              ∙ after_true s,
        )
    | inr absent ↦
        let folded = fold_lane_new h i lane absent in
        (
          fresh,
          folded,
          view-fold_lanes h i lane fresh no_fold (sorted (all_lanes i)) folded done
              ∙ ap (λ b. after_lanes b fresh (view no_fold lane))
                  (contains-sorted lane (all_lanes i) ∙ absent)
              ∙ after_false,
        )
  ]

  fresh_active :
      (s : LaneState)
      → fold_lane h i lane ≡ ok s
      → contains lane (all_lanes i) ≡ false
      → s.active ≡ none
  fresh_active s folded absent =
      ap (λ (t : LaneState). t.active) (ok-injective (sym folded ∙ fold_lane_new h i lane absent))

  chosen_sorted :
      (v : LaneView)
      → chosen_by h
          (all_lanes i)
          lane
          i.conflicts_by_ref
          (contains lane.0 (sorted (keys i.conflicts_by_ref)))
          (get lane.0 i.conflicts_by_ref)
          v
        ≡ settled_by h (get lane.0 i.conflicts_by_ref) lane v
  chosen_sorted v =
      ap
        (λ b. chosen_by h (all_lanes i) lane i.conflicts_by_ref b (get lane.0 i.conflicts_by_ref) v)
        (contains-sorted lane.0 (keys i.conflicts_by_ref) ∙ contains-keys lane.0 i.conflicts_by_ref)
      ∙ go (get lane.0 i.conflicts_by_ref)
    where
      go :
          (o : Option ConflictSet)
          → chosen_by h (all_lanes i) lane i.conflicts_by_ref (is_some o) o v
            ≡ settled_by h o lane v
      go none = refl
      go (some c) = refl

  -- If the fold of the lifecycle returns, then at every lane it holds what the timeline of that
  -- lane alone leaves, opened and judged against the conflict of the lane, if it is there.
  pub fold_lifecycle_lane :
      {f : Fold}
      → fold_lifecycle h i ≡ ok f
      → (s : LaneState) × (fold_lane h i lane ≡ ok s)
        × (view f lane ≡ lane_view h (get lane.0 i.conflicts_by_ref) lane s)
  unfolding fold_lifecycle
  fold_lifecycle_lane {f} done =
      let (g, lanes, rest) = >>=-eq-ok (fold_lanes h i no_fold (sorted (all_lanes i))) _ done in
      let (s, folded, seen) = folded_lane lanes in
      let refs = sorted (keys i.conflicts_by_ref) in
      (
        s,
        folded,
        ap (λ x. view x lane) (sym (ok-injective rest))
            ∙ view-settle_conflicts h (all_lanes i) lane i.conflicts_by_ref g refs
                (λ absent. ap (λ v. v.active) seen ∙ fresh_active s folded absent)
            ∙ chosen_sorted (view g lane)
            ∙ ap (settled_by h (get lane.0 i.conflicts_by_ref) lane) seen,
      )

-- A resolution that is in force answers the present conflict: it is the active one of its lane,
-- it was made for this conflict with these claims, it classifies every one of them, its outcome
-- is no abstention and fits them, and the status is "resolved".
abbrev pub IsInForce : Host → FoldInput → Fold → Lane → ResolutionRecord → Type 0
IsInForce h i f lane r =
    (c : ConflictSet) × (get lane.0 i.conflicts_by_ref ≡ some c)
    × (get lane f.active ≡ some r)
    × (observed_matches h c r ≡ true)
    × (subset (unique (claim_ids_of c.candidates)) (classified r) ≡ true)
    × (outcome_fits (unique (claim_ids_of c.candidates)) r ≡ true)
    × ((r.outcome == "abstain") ≡ false)
    × (get lane f.statuses ≡ some "resolved")

module _ (h : Host) (c : ConflictSet) (lane : Lane) (s : LaneState) where
  lane_view_idle : s.active ≡ none → (lane_view h (some c) lane s).effective ≡ none
  lane_view_idle idle = go lane
    where
      go : (l : Lane) → (lane_view h (some c) l s).effective ≡ none
      go (ref, none) = rw idle refl
      go (ref, some scope) = rw idle refl

  lane_view-none : s.active ≡ none → (lane_view h (some c) lane s).active ≡ none
  lane_view-none idle = go lane
    where
      go : (l : Lane) → (lane_view h (some c) l s).active ≡ none
      go (ref, none) = rw idle refl
      go (ref, some scope) = rw idle refl

  lane_view_active :
      (r : ResolutionRecord)
      → s.active ≡ some r
      → lane_view h (some c) lane s ≡ record {
        active = some r;
        effective = if (judge h c r).1 then some r else none;
        status = some (judge h c r).0;
      }
  lane_view_active r there = go lane
    where
      go :
          (l : Lane)
          → lane_view h (some c) l s ≡ record {
            active = some r;
            effective = if (judge h c r).1 then some r else none;
            status = some (judge h c r).0;
          }
      go (ref, none) = ground (arith, there)
      go (ref, some scope) = ground (arith, there)

-- The judgement, read both ways.
abbrev Judged : Host → ConflictSet → ResolutionRecord → Type 0
Judged h c r =
    (observed_matches h c r ≡ true)
    × (subset (unique (claim_ids_of c.candidates)) (classified r) ≡ true)
    × (outcome_fits (unique (claim_ids_of c.candidates)) r ≡ true)
    × ((r.outcome == "abstain") ≡ false)

judge-Judged :
    (h : Host) (c : ConflictSet) (r : ResolutionRecord)
    → ((judge h c r).1 ≡ true)
    → Judged h c r × ((judge h c r).0 ≡ "resolved")
unfolding judge
judge-Judged h c r passed = (ground arith, ground arith)

Judged-judge :
    (h : Host) (c : ConflictSet) (r : ResolutionRecord) → Judged h c r → (judge h c r).1 ≡ true
unfolding judge
Judged-judge h c r passed = ground arith

module _ (h : Host) (i : FoldInput) (lane : Lane) (r : ResolutionRecord) where
  judged_both :
      (f : Fold) (c : ConflictSet) (x : ResolutionRecord)
      → get lane.0 i.conflicts_by_ref ≡ some c
      → view f lane ≡ record {
        active = some x;
        effective = if (judge h c x).1 then some x else none;
        status = some (judge h c x).0;
      }
      → (get lane f.effective ≡ some r) ↔ IsInForce h i f lane r
  judged_both f c x e seen = (
    λ effective.
        let passed : (judge h c x).1 ≡ true = ground (arith, seen, effective) in
        let same : x ≡ r = ground (arith, seen, effective) in
        let (facts, resolved) = judge-Judged h c x passed in
        subst (IsInForce h i f lane) same (
          c,
          e,
          ap (λ v. v.active) seen,
          facts.0,
          facts.1,
          facts.2,
          facts.3,
          ap (λ v. v.status) seen ∙ ap some resolved,
        ),
    λ (c', there, active, observed, covers, fits, commits, _).
        let same : x ≡ r = ground (arith, seen, active) in
        let same_c : c ≡ c' = ground (arith, e, there) in
        let passed = Judged-judge h c' r (observed, covers, fits, commits) in
        ap (λ v. v.effective) seen
        ∙ ap₂ (λ d y. if (judge h d y).1 then some y else none) same_c same
        ∙ ap (λ b. if b then some r else none) passed,
  )

  in_force :
      (f : Fold) (s : LaneState) (o : Option ConflictSet)
      → get lane.0 i.conflicts_by_ref ≡ o
      → view f lane ≡ lane_view h o lane s
      → (get lane f.effective ≡ some r) ↔ IsInForce h i f lane r
  in_force f s none e seen = (
    λ effective. absurd (cc (sym effective ∙ ap (λ v. v.effective) seen)),
    λ force. cc (sym force.1 ∙ e),
  )
  in_force f s (some c) e seen = elim (Option-cases s.active) [
    | inl idle ↦ (
      λ effective. cc (sym effective ∙ ap (λ v. v.effective) seen ∙ lane_view_idle h c lane s idle),
      λ force. cc (sym force.2 ∙ ap (λ v. v.active) seen ∙ lane_view-none h c lane s idle),
    )
    | inr (x, there) ↦ judged_both f c x e (seen ∙ lane_view_active h c lane s x there)
  ]

  -- In a fold of the lifecycle that returns, a resolution is the effective one of a lane exactly if
  -- the conflict of the lane is present, the resolution is the active one of the lane, the
  -- identifier of the conflict that it was made for is the one of its classified claims, it
  -- classifies every candidate, its outcome is no abstention and fits the candidates, and the
  -- status of the lane is "resolved".
  pub fold_lifecycle_effective :
      {f : Fold}
      → fold_lifecycle h i ≡ ok f
      → (get lane f.effective ≡ some r) ↔ IsInForce h i f lane r
  fold_lifecycle_effective {f} done =
      let (s, _, seen) = fold_lifecycle_lane h i lane done in
      in_force f s (get lane.0 i.conflicts_by_ref) refl seen
