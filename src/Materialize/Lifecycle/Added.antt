-- ===== src/Materialize/Lifecycle/Added.antt =====
-- Taking in a new resolution step by step is folding all resolutions.
use statefuse.Base.{
  String, ◌≡◌, refl, sym, ◌∙◌, ap, subst, true, false, Option, none, List, [], ◌∷◌, ◌++◌,
  if◌then◌else◌, arith, inl, inr, Bool-cases, All, All-append, All-imp, eq_iff,
}
use statefuse.Base.Dict.{Dict, get, put, values, put_new}
use statefuse.Base.Order.{string_key, nat_key, pair_key, option_key, ◌==◌}
use statefuse.Base.Sorted.{sorted_by}
use statefuse.Base.Stable.{pick-holds, All-sorted_by}
use statefuse.Base.Groups.{group}
use statefuse.Result.{Result, ok, raise, ◌>>=◌, >>=-eq-ok, ok-injective}
use statefuse.Host.{Host}
use statefuse.Conflict.Identity.{ConflictSet}
use statefuse.Model.Resolution.{ResolutionRecord}
use statefuse.Model.Lifecycle.{ConflictLifecycleEvent}
use statefuse.Materialize.History.{
  Lane, Histories, group_resolution_history, group_lifecycle_history, append_resolution_history,
  append_history,
}
use statefuse.Materialize.History.Groups.{having}
use statefuse.Materialize.History.Ordered.{All-in_time_order}
use statefuse.Materialize.History.Index.{
  group-history_by, history_by_other, append_history-history_by,
}
use statefuse.Materialize.History.Lanes.{
  resolution_lane, event_lane, resolution_histories, event_histories, resolution_lanes, event_lanes,
  ResolutionsBy,
}
use statefuse.Materialize.Lifecycle.{
  Entry, fresh, FoldInput, Fold, fold_lane, fold_lifecycle, resolution_entries, event_entries,
  run_timeline,
}
use statefuse.Materialize.Lifecycle.Lanes.{view, lane_view}
use statefuse.Materialize.Lifecycle.ByLane.{fold_lifecycle_lane}
use statefuse.Materialize.Lifecycle.Replace.{RefoldInput, replace_lifecycle_fold_for_ref}
use statefuse.Materialize.Lifecycle.Replace.Dicts.{fold_lifecycle-IsFold}
use statefuse.Materialize.Lifecycle.Replace.Correct.{fold_items, replace-fold_lifecycle}
use statefuse.Materialize.Lifecycle.Incremental.{
  Apart, run_timeline-put, resolution_entries-Apart, event_entries-Apart,
}

-- A lane of another conflict folds to the same with the new resolution.
fold_items-put :
    (h : Host) (at : Option String) (by_id : Dict String ResolutionRecord) (r : ResolutionRecord)
    (rs : List ResolutionRecord) (es : List ConflictLifecycleEvent)
    → get r.resolution_id by_id ≡ none
    → All (λ e. (r.conflict_ref == e.conflict_ref) ≡ false) es
    → fold_items h at (put r.resolution_id r by_id) rs es ≡ fold_items h at by_id rs es
fold_items-put h at by_id r rs es new apart =
    both (resolution_entries h at rs) (event_entries h es) refl refl
  where
    both :
        (a b : Result (List Entry))
        → resolution_entries h at rs ≡ a
        → event_entries h es ≡ b
        → (do
          x ← a
          y ← b
          run_timeline h at (put r.resolution_id r by_id) fresh (sorted_by (λ e. e.0) (x ++ y)))
          ≡ (do x ← a; y ← b; run_timeline h at by_id fresh (sorted_by (λ e. e.0) (x ++ y)))
    both (raise e) b p q = refl
    both (ok x) (raise e) p q = refl
    both (ok x) (ok y) p q =
        run_timeline-put h at by_id r fresh (sorted_by (λ e. e.0) (x ++ y)) new (
          All-sorted_by (λ e. e.0) (λ e. Apart r e.1) (x ++ y)
            (All-append (λ e. Apart r e.1) x y (resolution_entries-Apart h at r rs p)
              (event_entries-Apart h r es apart q)))

values-append :
    {V : Type 0} (d : Dict String V) (k : String) (v : V)
    → values (d ++ (k, v) ∷ []) ≡ values d ++ v ∷ []
values-append [] k v = refl
values-append ((j, w) ∷ d) k v = ap (λ l. w ∷ l) (values-append d k v)

values-put_new :
    {V : Type 0} (k : String) (v : V) (d : Dict String V)
    → get k d ≡ none
    → values (put k v d) ≡ values d ++ v ∷ []
values-put_new k v d new = ap values (put_new k v d new) ∙ values-append d k v

module _ (h : Host) (by_id : Dict String ResolutionRecord) (r : ResolutionRecord)
    (new : get r.resolution_id by_id ≡ none) where
  abbrev grown : Dict String ResolutionRecord
  grown = put r.resolution_id r by_id

  module _ {old full : Histories ResolutionRecord}
      (before : group_resolution_history h by_id ≡ ok old)
      (after : group_resolution_history h grown ≡ ok full) where
    grown_histories :
        ResolutionsBy h (λ x. x.conflict_ref) (values by_id ++ r ∷ []) full.0
        × ResolutionsBy h resolution_lane (values by_id ++ r ∷ []) full.1
    grown_histories =
        subst
          (λ l.
            ResolutionsBy h (λ x. x.conflict_ref) l full.0
            × ResolutionsBy h resolution_lane l full.1)
          (values-put_new r.resolution_id r by_id new) (resolution_histories h grown after)

    -- Appending a new resolution to the histories gives the histories of all, at each conflict
    -- and each lane.
    pub append_resolution_history_lem :
        {added : Histories ResolutionRecord}
        → append_resolution_history h old r ≡ ok added
        → ((ref : String) → group ref added.0 ≡ group ref full.0)
          × ((lane : Lane) → group lane added.1 ≡ group lane full.1)
    unfolding append_resolution_history
    append_resolution_history_lem added =
        let (refs, lanes) = resolution_histories h by_id before in
        let (all_refs, all_lanes) = grown_histories in
        let (a, first, next) =
          >>=-eq-ok
            (append_history h (λ x. x.timestamp) (λ x. x.resolution_id) r.conflict_ref r old.0) _
            added in
        let (b, second, made) =
          >>=-eq-ok
            (append_history h (λ x. x.timestamp) (λ x. x.resolution_id) (resolution_lane r) r old.1)
            _ next in
        let same = ok-injective made in
        (
          λ ref.
              ap (λ x. group ref x.0) (sym same)
              ∙ append_history-history_by h (λ x. x.timestamp) (λ x. x.resolution_id)
                  (λ x. x.conflict_ref) (values by_id) r refs first all_refs ref,
          λ lane.
              ap (λ x. group lane x.1) (sym same)
              ∙ append_history-history_by h (λ x. x.timestamp) (λ x. x.resolution_id)
                  resolution_lane (values by_id) r lanes second all_lanes lane,
        )

    module _ (events : Dict String ConflictLifecycleEvent) {ev : Histories ConflictLifecycleEvent}
        (filed : group_lifecycle_history h events ≡ ok ev)
        (conflicts : Dict String ConflictSet) where
      -- The arguments of the fold of everything, and those of the fold of one conflict.
      abbrev pub input_of : Dict String ResolutionRecord → Histories ResolutionRecord → FoldInput
      input_of ids hs = record {
        resolutions_by_id = ids;
        resolutions_by_lane = hs.1;
        events_by_lane = ev.1;
        conflicts_by_ref = conflicts;
        valid_at = none;
      }

      abbrev pub refold_of : Histories ResolutionRecord → RefoldInput
      refold_of hs = record {
        resolutions_by_id = grown;
        resolutions_by_ref = hs.0;
        lifecycle_by_ref = ev.0;
        conflicts_by_ref = conflicts;
      }

      lane_events_apart :
          (lane : Lane)
          → (lane.0 == r.conflict_ref) ≡ false
          → All (λ e. (r.conflict_ref == e.conflict_ref) ≡ false) (group lane ev.1)
      lane_events_apart lane other =
          All-in_time_order h (λ e. e.timestamp) (λ e. e.event_id)
            (λ e. (r.conflict_ref == e.conflict_ref) ≡ false)
            (having event_lane lane (values events))
            (All-imp apart (having event_lane lane (values events))
              (pick-holds (λ e. event_lane e == lane) (values events)))
            (group-history_by h (λ e. e.timestamp) (λ e. e.event_id) event_lane lane (values events)
              (event_histories h events filed).1)
        where
          apart :
              (e : ConflictLifecycleEvent)
              → (event_lane e == lane) ≡ true
              → (r.conflict_ref == e.conflict_ref) ≡ false
          apart e here = ground (
            arith,
            here,
            other,
            eq_iff e.conflict_ref lane.0,
            eq_iff r.conflict_ref e.conflict_ref,
            eq_iff lane.0 r.conflict_ref,
          )

      other_lanes :
          (lane : Lane)
          → (lane.0 == r.conflict_ref) ≡ false
          → fold_lane h (input_of by_id old) lane ≡ fold_lane h (input_of grown full) lane
      unfolding fold_lane
      other_lanes lane other =
          sym (
            fold_items-put h none by_id r (group lane old.1) (group lane ev.1) new
              (lane_events_apart lane other))
          ∙ ap (λ rs. fold_items h none grown rs (group lane ev.1))
              (history_by_other h (λ x. x.timestamp) (λ x. x.resolution_id) resolution_lane
                (values by_id) r (resolution_histories h by_id before).1 grown_histories.1 lane
                (elsewhere lane other))
        where
          elsewhere :
              (at : Lane) → (at.0 == r.conflict_ref) ≡ false → (resolution_lane r == at) ≡ false
          elsewhere at n = ground (arith, n, eq_iff at.0 r.conflict_ref, eq_iff r.conflict_ref at.0)

      -- Let the histories be those of the records, and the fold one of everything. If a resolution
      -- with a new identifier is appended to the histories and the fold of its conflict is
      -- replaced, then at every lane the result holds what the fold of everything with the new
      -- resolution returns.
      pub replace-append_resolution :
          {f g all : Fold} {added : Histories ResolutionRecord}
          → fold_lifecycle h (input_of by_id old) ≡ ok f
          → append_resolution_history h old r ≡ ok added
          → replace_lifecycle_fold_for_ref h r.conflict_ref (refold_of added) f ≡ ok g
          → fold_lifecycle h (input_of grown full) ≡ ok all
          → (lane : Lane) → view g lane ≡ view all lane
      replace-append_resolution {f} {g} {all} {added} folded appended replaced everything lane =
          let (refs, _) = append_resolution_history_lem appended in
          let (s, old_lane, old_seen) = fold_lifecycle_lane h (input_of by_id old) lane folded in
          let (t, new_lane, new_seen) =
            fold_lifecycle_lane h (input_of grown full) lane everything in
          replace-fold_lifecycle h r.conflict_ref (refold_of added) (input_of grown full) f
            (record {
              same_ids = refl;
              same_conflicts = refl;
              unscoped = refl;
              resolutions = λ scope.
                  ap (having (λ x. x.scope) scope) (refs r.conflict_ref)
                  ∙ resolution_lanes h grown after r.conflict_ref scope;
              events = event_lanes h events filed r.conflict_ref;
            })
            (fold_lifecycle-IsFold h (input_of by_id old) folded) replaced everything lane
          ∙ elim (Bool-cases (lane.0 == r.conflict_ref)) [
            | inl own ↦ ap (λ b. if b then view all lane else view f lane) own
            | inr other ↦
                ap (λ b. if b then view all lane else view f lane) other
                ∙ old_seen
                ∙ ap (lane_view h (get lane.0 conflicts) lane)
                    (ok-injective (sym old_lane ∙ other_lanes lane other ∙ new_lane))
                ∙ sym new_seen
          ]
