-- ===== src/Materialize/History/Lanes.antt =====
-- The history of a lane is that of its conflict, restricted to the scope.
use statefuse.Base.{String, ◌≡◌, refl, sym, ◌∙◌, ap, Bool, ◌&&◌, Option, List, [], ◌∷◌, arith}
use statefuse.Base.Dict.{Dict, values}
use statefuse.Base.Order.{Key, string_key, pair_key, option_key, ◌==◌}
use statefuse.Base.Stable.{pick}
use statefuse.Base.Groups.{group}
use statefuse.Result.{ok, >>=-eq-ok, ok-injective}
use statefuse.Host.{Host}
use statefuse.Model.Resolution.{ResolutionRecord}
use statefuse.Model.Lifecycle.{ConflictLifecycleEvent}
use statefuse.Materialize.History.{
  Lane, Histories, in_time_order, history_by, group_resolution_history, group_lifecycle_history,
}
use statefuse.Materialize.History.Groups.{having}
use statefuse.Materialize.History.Ordered.{in_time_order-pick}
use statefuse.Materialize.History.Index.{group-history_by}

module _ {A : Type 0} (h : Host) (time_of : A → String) (id_of : A → String) where
  pick-pick :
      (p q both : A → Bool)
      → ((x : A) → both x ≡ (q x && p x))
      → (l : List A) → pick p (pick q l) ≡ pick both l
  unfolding pick
  pick-pick p q both same [] = refl
  pick-pick p q both same (x ∷ l) = ground (arith, same x, pick-pick p q both same l)

  module _ (ref_of : A → String) (scope_of : A → Option String) where
    abbrev lane_of : A → Lane
    lane_of x = (ref_of x, scope_of x)

    lanes_agree :
        (l : List A) {by_ref : Dict String (List A)} {by_lane : Dict Lane (List A)}
        → history_by h time_of id_of ref_of l ≡ ok by_ref
        → history_by h time_of id_of lane_of l ≡ ok by_lane
        → (ref : String) (scope : Option String)
        → having scope_of scope (group ref by_ref) ≡ group (ref, scope) by_lane
    lanes_agree l {by_ref} {by_lane} refs lanes ref scope = ok-injective (
        sym (
          in_time_order-pick h time_of id_of (λ x. scope_of x == scope) (having ref_of ref l)
            (group-history_by h time_of id_of ref_of ref l refs))
        ∙ ap (in_time_order h time_of id_of) (
            pick-pick (λ x. scope_of x == scope) (λ x. ref_of x == ref)
              (λ x. lane_of x == (ref, scope)) (λ x. refl) l)
        ∙ group-history_by h time_of id_of lane_of (ref, scope) l lanes)

abbrev pub ResolutionsBy :
    {K : Type 0}
    → ⦃o : Key K⦄ → Host
    → (ResolutionRecord → K)
    → List ResolutionRecord
    → Dict K (List ResolutionRecord)
    → Type 0
ResolutionsBy h key l d = history_by h (λ r. r.timestamp) (λ r. r.resolution_id) key l ≡ ok d

abbrev pub EventsBy :
    {K : Type 0}
    → ⦃o : Key K⦄ → Host
    → (ConflictLifecycleEvent → K)
    → List ConflictLifecycleEvent
    → Dict K (List ConflictLifecycleEvent)
    → Type 0
EventsBy h key l d = history_by h (λ e. e.timestamp) (λ e. e.event_id) key l ≡ ok d

abbrev pub resolution_lane : ResolutionRecord → Lane
resolution_lane r = (r.conflict_ref, r.scope)

abbrev pub event_lane : ConflictLifecycleEvent → Lane
event_lane e = (e.conflict_ref, e.scope)

module _ (h : Host) where
  pub resolution_histories :
      (by_id : Dict String ResolutionRecord) {hs : Histories ResolutionRecord}
      → group_resolution_history h by_id ≡ ok hs
      → ResolutionsBy h (λ r. r.conflict_ref) (values by_id) hs.0
        × ResolutionsBy h resolution_lane (values by_id) hs.1
  unfolding group_resolution_history
  resolution_histories by_id done =
      let (by_ref, refs, rest) =
        >>=-eq-ok
          (history_by h (λ r. r.timestamp) (λ r. r.resolution_id) (λ r. r.conflict_ref)
            (values by_id))
          _ done in
      let (by_lane, lanes, made) =
        >>=-eq-ok
          (history_by h (λ r. r.timestamp) (λ r. r.resolution_id) resolution_lane (values by_id)) _
          rest in
      let same = ok-injective made in (refs ∙ ap (λ x. ok x.0) same, lanes ∙ ap (λ x. ok x.1) same)

  pub event_histories :
      (by_id : Dict String ConflictLifecycleEvent) {hs : Histories ConflictLifecycleEvent}
      → group_lifecycle_history h by_id ≡ ok hs
      → EventsBy h (λ e. e.conflict_ref) (values by_id) hs.0
        × EventsBy h event_lane (values by_id) hs.1
  unfolding group_lifecycle_history
  event_histories by_id done =
      let (by_ref, refs, rest) =
        >>=-eq-ok
          (history_by h (λ e. e.timestamp) (λ e. e.event_id) (λ e. e.conflict_ref) (values by_id)) _
          done in
      let (by_lane, lanes, made) =
        >>=-eq-ok (history_by h (λ e. e.timestamp) (λ e. e.event_id) event_lane (values by_id)) _
          rest in
      let same = ok-injective made in (refs ∙ ap (λ x. ok x.0) same, lanes ∙ ap (λ x. ok x.1) same)

  -- If the resolutions are grouped, then those of a lane are those of its conflict with the scope
  -- of the lane, in the same order.
  pub resolution_lanes :
      (by_id : Dict String ResolutionRecord) {hs : Histories ResolutionRecord}
      → group_resolution_history h by_id ≡ ok hs
      → (ref : String) (scope : Option String)
      → having (λ x. x.scope) scope (group ref hs.0) ≡ group (ref, scope) hs.1
  resolution_lanes by_id done =
      let (refs, lanes) = resolution_histories by_id done in
      lanes_agree h (λ r. r.timestamp) (λ r. r.resolution_id) (λ r. r.conflict_ref) (λ r. r.scope)
        (values by_id) refs lanes

  -- The same for the events.
  pub event_lanes :
      (by_id : Dict String ConflictLifecycleEvent) {hs : Histories ConflictLifecycleEvent}
      → group_lifecycle_history h by_id ≡ ok hs
      → (ref : String) (scope : Option String)
      → having (λ x. x.scope) scope (group ref hs.0) ≡ group (ref, scope) hs.1
  event_lanes by_id done =
      let (refs, lanes) = event_histories by_id done in
      lanes_agree h (λ e. e.timestamp) (λ e. e.event_id) (λ e. e.conflict_ref) (λ e. e.scope)
        (values by_id) refs lanes
