-- ===== src/Materialize/Find/Resolved.antt =====
-- A conflict that is reported as resolved has a resolution in force.
use statefuse.Base.{
  String, ◌≡◌, refl, sym, ◌∙◌, ap, subst, Bool, true, false, not, ◌&&◌, Option, none, some, List,
  [], ◌∷◌, ◌++◌, arith, is_some, if◌then◌else◌, eq_iff,
}
use statefuse.Base.Dict.{get, or_else}
use statefuse.Base.Order.{string_key, nat_key, pair_key, option_key, ◌==◌}
use statefuse.Base.Sorted.{sorted_by}
use statefuse.Result.{ok, ◌>>=◌, >>=-eq-ok, ok-injective}
use statefuse.Host.{Host}
use statefuse.Model.Resolution.{ResolutionRecord}
use statefuse.Model.Lifecycle.{ConflictLifecycleEvent}
use statefuse.Conflict.Identity.{ConflictSet}
use statefuse.Materialize.History.{Lane}
use statefuse.Materialize.Lifecycle.{
  Entry, resolution, event, LaneState, FoldInput, Fold, fold_lane, fold_lifecycle, judge,
  apply_event, apply_item, run_timeline, without_resolution, resolve, fresh, resolution_applies,
  answers, resolution_entries, event_entries,
}
use statefuse.Materialize.Lifecycle.Incremental.{settle_named}
use statefuse.Materialize.Lifecycle.Lanes.{view, lane_view}
use statefuse.Materialize.Lifecycle.ByLane.{fold_lifecycle_lane}
use statefuse.Base.Groups.{group}

-- A lane is resolved only by a resolution.
abbrev IsBacked : LaneState → Type 0
IsBacked s = s.status ≡ some "resolved" → is_some s.active ≡ true

unresolved :
    (s : String)
    → (s == "resolved") ≡ false
    → some s ≡ some "resolved"
    → (o : Option ResolutionRecord) → is_some o ≡ true
unresolved s other claim o =
    let same : s ≡ "resolved" = ground (arith, claim) in
    cc (sym other ∙ (eq_iff s "resolved").1 same)

judged_resolved :
    (h : Host) (c : ConflictSet) (r : ResolutionRecord)
    → some (judge h c r).0 ≡ some "resolved"
    → (judge h c r).1 ≡ true
unfolding judge
judged_resolved h c r is_resolved = go (r.outcome == "abstain") _ _ is_resolved
  where
    shape : Bool → Bool → Bool → String × Bool
    shape abstains covers fits =
        if abstains
        then (if covers then "deferred" else "reopened", false)
        else if covers && fits
        then ("resolved", true)
        else ("reopened", false)

    go :
        (abstains covers fits : Bool)
        → some (shape abstains covers fits).0 ≡ some "resolved"
        → (shape abstains covers fits).1 ≡ true
    go true true fits e = unresolved "deferred" refl e none
    go true false fits e = unresolved "reopened" refl e none
    go false true true e = refl
    go false true false e = unresolved "reopened" refl e none
    go false false fits e = unresolved "reopened" refl e none

module _ (h : Host) (i : FoldInput) where
  event-IsBacked :
      (e : ConflictLifecycleEvent) {s : LaneState}
      → apply_event h i.valid_at i.resolutions_by_id e ≡ ok s
      → IsBacked s
  unfolding apply_event
  event-IsBacked e {s} done = guard (e.status == "resolved") refl done
    where
      chosen :
          (r : ResolutionRecord) (b : Bool)
          → IsBacked (if b then resolve r else without_resolution "open")
      chosen r true claim = refl
      chosen r false claim = unresolved "open" refl claim none

      answered :
          (r : ResolutionRecord) (b : Bool)
          → (if not b then ok (without_resolution "open") else (do
            applies ← resolution_applies h i.valid_at r
            ok (if applies then resolve r else without_resolution "open")))
            ≡ ok s
          → IsBacked s
      answered r false e' = subst IsBacked (ok-injective e') (chosen r false)
      answered r true e' =
          let (b, _, made) = >>=-eq-ok (resolution_applies h i.valid_at r) _ e' in
          subst IsBacked (ok-injective made) (chosen r b)

      named : (o : Option ResolutionRecord) → settle_named h i.valid_at e o ≡ ok s → IsBacked s
      named none e' = subst IsBacked (ok-injective e') (λ claim. unresolved "open" refl claim none)
      named (some r) e' = answered r (answers r e) e'

      guard :
          (b : Bool)
          → (e.status == "resolved") ≡ b
          → (if not b
              then ok (without_resolution e.status)
              else settle_named h i.valid_at e
                  (get (elim e.resolution_id [ none ↦ "" | some id ↦ id ]) i.resolutions_by_id))
            ≡ ok s
          → IsBacked s
      guard true same e' = named _ e'
      guard false other e' =
          subst IsBacked (ok-injective e') (λ claim. unresolved e.status other claim none)

  timeline-IsBacked :
      (s : LaneState) (l : List Entry) {t : LaneState}
      → IsBacked s
      → run_timeline h i.valid_at i.resolutions_by_id s l ≡ ok t
      → IsBacked t
  unfolding run_timeline apply_item
  timeline-IsBacked s [] before done = subst IsBacked (ok-injective done) before
  timeline-IsBacked s ((_, resolution r) ∷ l) before done =
      timeline-IsBacked (resolve r) l (λ claim. refl) done
  timeline-IsBacked s ((_, event e) ∷ l) before done =
      let (next, first, rest) = >>=-eq-ok (apply_event h i.valid_at i.resolutions_by_id e) _ done in
      timeline-IsBacked next l (event-IsBacked e first) rest

  lane-IsBacked : (lane : Lane) {s : LaneState} → fold_lane h i lane ≡ ok s → IsBacked s
  unfolding fold_lane
  lane-IsBacked lane done =
      let (rs, _, d1) =
        >>=-eq-ok (resolution_entries h i.valid_at (group lane i.resolutions_by_lane)) _ done in
      let (es, _, d2) = >>=-eq-ok (event_entries h (group lane i.events_by_lane)) _ d1 in
      timeline-IsBacked fresh (sorted_by (λ e. e.0) (rs ++ es)) (λ claim. cc claim) d2

  -- A resolved lane of a present conflict has a resolution in force.
  lane_resolved :
      (lane : Lane) (f : Fold) (s : LaneState) (o : Option ConflictSet)
      → IsBacked s
      → is_some o ≡ true
      → view f lane ≡ lane_view h o lane s
      → get lane f.statuses ≡ some "resolved"
      → is_some (get lane f.effective) ≡ true
  lane_resolved lane f s none backed present seen claim = cc present
  lane_resolved lane f s (some c) backed present seen claim =
      ap (λ v. is_some v.effective) seen
      ∙ settled_resolved lane s.active s.status backed (sym (ap (λ v. v.status) seen) ∙ claim)
    where
      passed :
          (r : ResolutionRecord) (e : Option ResolutionRecord)
          → some (judge h c r).0 ≡ some "resolved"
          → is_some (if (judge h c r).1 then some r else e) ≡ true
      passed r e is_resolved =
          ap (λ b. is_some (if b then some r else e)) (judged_resolved h c r is_resolved)

      opened_resolved :
          (o : Option String) → or_else o (some "open") ≡ some "resolved" → o ≡ some "resolved"
      opened_resolved none e = cc (unresolved "open" refl e none)
      opened_resolved (some x) e = e

      settled_resolved :
          (at : Lane) (a : Option ResolutionRecord) (status : Option String)
          → IsBacked (record { active = a; status = status })
          → (lane_view h (some c) at (record { active = a; status = status })).status
            ≡ some "resolved"
          → is_some (lane_view h (some c) at (record { active = a; status = status })).effective
            ≡ true
      settled_resolved (ref, none) none status holds e = holds (opened_resolved status e)
      settled_resolved (ref, some scope) none status holds e = holds e
      settled_resolved (ref, none) (some r) status holds e = passed r none e
      settled_resolved (ref, some scope) (some r) status holds e = passed r none e

  -- If the fold of the lifecycle returns, then a lane that is resolved and whose conflict is present
  -- has a resolution in force.
  pub fold_lifecycle-resolved :
      (lane : Lane) {f : Fold}
      → fold_lifecycle h i ≡ ok f
      → is_some (get lane.0 i.conflicts_by_ref) ≡ true
      → get lane f.statuses ≡ some "resolved"
      → is_some (get lane f.effective) ≡ true
  fold_lifecycle-resolved lane {f} done present claim =
      let (s, folded, seen) = fold_lifecycle_lane h i lane done in
      lane_resolved lane f s (get lane.0 i.conflicts_by_ref) (lane-IsBacked lane folded) present
        seen claim
