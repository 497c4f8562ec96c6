-- ===== src/Materialize/Lifecycle/Replace/Correct.antt =====
-- Folding one conflict again gives what folding all of them gives.
use statefuse.Base.{
  String, ◌≡◌, refl, sym, ◌∙◌, ap, ap₂, subst, true, false, Option, none, some, List, [], ◌∷◌, ◌++◌,
  if◌then◌else◌, arith, inl, inr, Bool-cases, eq_iff,
}
use statefuse.Base.Dict.{Dict, IsDict, get, update, or_else, get-update, key_refl}
use statefuse.Base.Order.{string_key, nat_key, pair_key, option_key, ◌==◌}
use statefuse.Base.Sorted.{sorted_by}
use statefuse.Base.Groups.{group}
use statefuse.Result.{Result, ok, ◌>>=◌, >>=-eq-ok, ok-injective}
use statefuse.Host.{Host}
use statefuse.Conflict.Identity.{ConflictSet}
use statefuse.Model.Resolution.{ResolutionRecord}
use statefuse.Model.Lifecycle.{ConflictLifecycleEvent}
use statefuse.Materialize.History.{Lane}
use statefuse.Materialize.History.Groups.{having, group-scope, group_elsewhere}
use statefuse.Materialize.Lifecycle.{
  LaneState, fresh, FoldInput, Fold, fold_lane, fold_lifecycle, resolution_entries, event_entries,
  run_timeline,
}
use statefuse.Materialize.Lifecycle.Lanes.{view, unsettled, lane_view}
use statefuse.Materialize.Lifecycle.ByLane.{fold_lifecycle_lane}
use statefuse.Materialize.Lifecycle.Replace.{
  RefoldInput, only, input_for, drop_ref, replace_lifecycle_fold_for_ref,
}
use statefuse.Materialize.Lifecycle.Replace.Dicts.{IsFold, get-drop_ref, fold_lifecycle-IsFold}

-- The two sets of arguments describe the same items of the conflict.
pub record Agrees (ref : String) (r : RefoldInput) (j : FoldInput) : Type 0 where
  pub same_ids : r.resolutions_by_id ≡ j.resolutions_by_id
  pub same_conflicts : r.conflicts_by_ref ≡ j.conflicts_by_ref
  pub unscoped : j.valid_at ≡ none
  pub resolutions :
      (scope : Option String)
      → having (λ x. x.scope) scope (group ref r.resolutions_by_ref)
        ≡ group (ref, scope) j.resolutions_by_lane
  pub events :
      (scope : Option String)
      → having (λ x. x.scope) scope (group ref r.lifecycle_by_ref)
        ≡ group (ref, scope) j.events_by_lane

-- What `fold_lane` does, from the items of the lane.
abbrev pub fold_items :
    Host
    → Option String
    → Dict String ResolutionRecord
    → List ResolutionRecord
    → List ConflictLifecycleEvent
    → Result LaneState
fold_items h at by_id rs es = do
  resolutions ← resolution_entries h at rs
  events ← event_entries h es
  run_timeline h at by_id fresh (sorted_by (λ e. e.0) (resolutions ++ events))

module _ (h : Host) (ref : String) (r : RefoldInput) where
  -- The lanes of the conflict fold to the same.
  same_lane :
      (j : FoldInput)
      → Agrees ref r j
      → (scope : Option String)
      → fold_lane h (input_for ref r) (ref, scope) ≡ fold_lane h j (ref, scope)
  unfolding fold_lane input_for
  same_lane j a scope = λ k.
      fold_items h (sym a.unscoped k) (a.same_ids k)
        ((group-scope (λ x. x.scope) ref scope (group ref r.resolutions_by_ref)
            ∙ a.resolutions scope)
          k)
        ((group-scope (λ x. x.scope) ref scope (group ref r.lifecycle_by_ref) ∙ a.events scope) k)

  -- The other lanes are not folded.
  other_lane :
      (lane : Lane) → (lane.0 == ref) ≡ false → fold_lane h (input_for ref r) lane ≡ ok fresh
  unfolding fold_lane input_for resolution_entries event_entries run_timeline sorted_by
  other_lane lane other = λ k.
      fold_items h none r.resolutions_by_id
        (group_elsewhere (λ x. x.scope) ref lane (group ref r.resolutions_by_ref) other k)
        (group_elsewhere (λ x. x.scope) ref lane (group ref r.lifecycle_by_ref) other k)

  get-only : get ref (only ref r.conflicts_by_ref) ≡ get ref r.conflicts_by_ref
  unfolding only get
  get-only = go (get ref r.conflicts_by_ref)
    where
      go : (o : Option ConflictSet) → get ref (elim o [ none ↦ [] | some c ↦ (ref, c) ∷ [] ]) ≡ o
      go none = refl
      go (some c) = ground (arith, key_refl ref)

  get-only_elsewhere :
      (own : String) → (own == ref) ≡ false → get own (only ref r.conflicts_by_ref) ≡ none
  unfolding only get
  get-only_elsewhere own other = go (get ref r.conflicts_by_ref)
    where
      go : (o : Option ConflictSet) → get own (elim o [ none ↦ [] | some c ↦ (ref, c) ∷ [] ]) ≡ none
      go none = refl
      go (some c) = ground (arith, other, eq_iff ref own, eq_iff own ref)

  abbrev replaced : Fold → Fold → Fold
  replaced f folded = record {
    active = update (drop_ref ref f.active) folded.active;
    effective = update (drop_ref ref f.effective) folded.effective;
    statuses = update (drop_ref ref f.statuses) folded.statuses;
  }

  module _ (f folded : Fold) (old : IsFold f) (new : IsFold folded) (lane : Lane) where
    get-replaced :
        {V : Type 0} (d e : Dict Lane V)
        → IsDict d
        → IsDict e
        → get lane (update (drop_ref ref d) e)
          ≡ or_else (get lane e) (if lane.0 == ref then none else get lane d)
    get-replaced d e v w =
        get-update lane (drop_ref ref d) e w ∙ ap (or_else (get lane e)) (get-drop_ref ref lane d v)

    -- Where nothing is folded, the old fold stays; the lanes of the conflict are the new ones.
    view-replaced : view (replaced f folded) lane ≡ record {
      active = or_else (get lane folded.active) (if lane.0 == ref then none else get lane f.active);
      effective =
          or_else
            (get lane folded.effective)
            (if lane.0 == ref then none else get lane f.effective);
      status =
          or_else (get lane folded.statuses) (if lane.0 == ref then none else get lane f.statuses);
    }
    view-replaced = λ k. record {
      active = get-replaced f.active folded.active old.active new.active k;
      effective = get-replaced f.effective folded.effective old.effective new.effective k;
      status = get-replaced f.statuses folded.statuses old.statuses new.statuses k;
    }

    or_else-none : {V : Type 0} (o : Option V) → or_else o none ≡ o
    or_else-none none = refl
    or_else-none (some v) = refl

    view-replaced_own : (lane.0 == ref) ≡ true → view (replaced f folded) lane ≡ view folded lane
    view-replaced_own own =
        view-replaced
        ∙ rw own (λ k. record {
          active = or_else-none (get lane folded.active) k;
          effective = or_else-none (get lane folded.effective) k;
          status = or_else-none (get lane folded.statuses) k;
        })

    view-replaced_other :
        (lane.0 == ref) ≡ false
        → view folded lane ≡ unsettled fresh
        → view (replaced f folded) lane ≡ view f lane
    view-replaced_other other nothing =
        view-replaced
        ∙ rw other (λ k. record {
          active = or_else (nothing k).active (get lane f.active);
          effective = or_else (nothing k).effective (get lane f.effective);
          status = or_else (nothing k).status (get lane f.statuses);
        })

  same_view :
      (j : FoldInput) (lane : Lane)
      → Agrees ref r j
      → (lane.0 == ref) ≡ true
      → (s t : LaneState) → fold_lane h (input_for ref r) lane ≡ ok s
      → fold_lane h j lane ≡ ok t
      → lane_view h (get lane.0 (only ref r.conflicts_by_ref)) lane s
        ≡ lane_view h (get lane.0 j.conflicts_by_ref) lane t
  same_view j lane a own s t folded full =
      let e = (eq_iff lane.0 ref).0 own in
      let same_lane' : fold_lane h (input_for ref r) lane ≡ fold_lane h j lane =
        subst (λ x. fold_lane h (input_for ref r) (x, lane.1) ≡ fold_lane h j (x, lane.1)) (sym e)
          (same_lane j a lane.1) in
      let same_conflict : get lane.0 (only ref r.conflicts_by_ref) ≡ get lane.0 j.conflicts_by_ref =
        subst (λ x. get x (only ref r.conflicts_by_ref) ≡ get x j.conflicts_by_ref) (sym e)
          (get-only ∙ ap (get ref) a.same_conflicts) in
      ap₂ (λ o x. lane_view h o lane x) same_conflict
        (ok-injective (sym folded ∙ same_lane' ∙ full))

  -- Folding one conflict again, in a fold whose dictionaries hold no lane twice, gives at the
  -- lanes of that conflict what the fold of all conflicts returns, if the arguments describe the
  -- same items of the conflict, and leaves all other lanes as they were.
  pub replace-fold_lifecycle :
      (j : FoldInput) (f : Fold) {g full : Fold}
      → Agrees ref r j
      → IsFold f
      → replace_lifecycle_fold_for_ref h ref r f ≡ ok g
      → fold_lifecycle h j ≡ ok full
      → (lane : Lane) → view g lane ≡ (if lane.0 == ref then view full lane else view f lane)
  unfolding replace_lifecycle_fold_for_ref
  replace-fold_lifecycle j f {g} {full} a old done all_done lane =
      let (folded, again, rest) =
        >>=-eq-ok (fold_lifecycle h (input_for ref r)) (λ x. ok (replaced f x)) done in
      let new = fold_lifecycle-IsFold h (input_for ref r) again in
      let (s, folds, seen) = fold_lifecycle_lane h (input_for ref r) lane again in
      let (t, folds_all, seen_all) = fold_lifecycle_lane h j lane all_done in
      let start : view g lane ≡ view (replaced f folded) lane =
        ap (λ x. view x lane) (sym (ok-injective rest)) in
      elim (Bool-cases (lane.0 == ref)) [
        | inl own ↦ rw own (
            start
            ∙ view-replaced_own f folded old new lane own
            ∙ seen
            ∙ input_conflicts lane s
            ∙ same_view j lane a own s t folds folds_all
            ∙ sym seen_all)
        | inr other ↦ rw other (
            start
            ∙ view-replaced_other f folded old new lane other (
                seen
                ∙ input_conflicts lane s
                ∙ ap₂ (λ o x. lane_view h o lane x) (get-only_elsewhere lane.0 other)
                    (ok-injective (sym folds ∙ other_lane lane other))))
      ]
    where
      input_conflicts :
          (at : Lane) (s : LaneState)
          → lane_view h (get at.0 (input_for ref r).conflicts_by_ref) at s
            ≡ lane_view h (get at.0 (only ref r.conflicts_by_ref)) at s
      input_conflicts at s = unfold input_for in refl
