-- ===== src/Materialize/Lifecycle/Whole.antt =====
-- The histories and the fold of everything: they return for records whose times are timestamps.
use statefuse.Base.{
  String, ◌≡◌, refl, sym, subst, Option, some, List, [], ◌∷◌, All, All-imp, inl, inr, Bool-cases,
  arith,
}
use statefuse.Base.Dict.{Dict, get, keys, values}
use statefuse.Base.Order.{Key, string_key, pair_key, option_key, ◌==◌}
use statefuse.Base.Sorted.{sorted}
use statefuse.Base.Stable.{All-pick}
use statefuse.Base.Groups.{group}
use statefuse.Result.{ok}
use statefuse.Host.{Host, parse_utc_iso}
use statefuse.Conflict.Identity.{ConflictSet}
use statefuse.Model.Resolution.{ResolutionRecord}
use statefuse.Model.Lifecycle.{ConflictLifecycleEvent}
use statefuse.Materialize.History.{
  Histories, group_by, with_keys, in_time_order, order_groups, history_by, group_resolution_history,
  group_lifecycle_history,
}
use statefuse.Materialize.History.Groups.{having, group-group_by}
use statefuse.Materialize.History.Index.{group-history_by}
use statefuse.Materialize.History.Ordered.{All-in_time_order}
use statefuse.Materialize.History.Lanes.{
  resolution_lane, event_lane, resolution_histories, event_histories,
}
use statefuse.Materialize.Lifecycle.{FoldInput, Fold, fold_lifecycle}
use statefuse.Materialize.Lifecycle.Total.{
  Returns, then_Returns, IsDated, IsInstant, fold_lifecycle-Returns,
}

All-values :
    {V : Type 0} (P : V → Type 0) (k : String) (v : V) (d : Dict String V)
    → All P (values d)
    → get k d ≡ some v
    → P v
unfolding get
All-values P k v [] all there = cc there
All-values P k v ((j, w) ∷ d) all there = elim (Bool-cases (j == k)) [
  | inl own ↦ let same : w ≡ v = ground (arith, own, there) in subst P same all.0
  | inr other ↦ All-values P k v d all.1 (ground (arith, other, there))
]

module _ {A : Type 0} (h : Host) (time_of : A → String) (id_of : A → String) where
  abbrev Timed : A → Type 0
  Timed x = Returns (parse_utc_iso h (time_of x))

  with_keys-Returns : (l : List A) → All Timed l → Returns (with_keys h time_of id_of l)
  unfolding with_keys
  with_keys-Returns [] timed = ([], refl)
  with_keys-Returns (x ∷ l) timed = then_Returns (parse_utc_iso h (time_of x)) _ timed.0 (λ t.
      then_Returns (with_keys h time_of id_of l) _ (with_keys-Returns l timed.1)
        (λ rest. (_, refl)))

  in_time_order-Returns : (l : List A) → All Timed l → Returns (in_time_order h time_of id_of l)
  unfolding in_time_order
  in_time_order-Returns l timed =
      then_Returns (with_keys h time_of id_of l) _ (with_keys-Returns l timed) (λ keyed. (_, refl))

  module _ {K : Type 0} ⦃o : Key K⦄ where
    order_groups-Returns :
        (d : Dict K (List A)) (ks : List K)
        → ((k : K) → All Timed (group k d))
        → Returns (order_groups h time_of id_of d ks)
    unfolding order_groups
    order_groups-Returns d [] timed = ([], refl)
    order_groups-Returns d (k ∷ ks) timed =
        then_Returns (in_time_order h time_of id_of (group k d)) _
          (in_time_order-Returns (group k d) (timed k))
          (λ items.
            then_Returns (order_groups h time_of id_of d ks) _ (order_groups-Returns d ks timed)
              (λ rest. (_, refl)))

    history_by-Returns :
        (key : A → K) (l : List A) → All Timed l → Returns (history_by h time_of id_of key l)
    unfolding history_by group get
    history_by-Returns key l timed =
        order_groups-Returns (group_by key [] l) (sorted (keys (group_by key [] l))) (λ k.
          subst (All Timed) (sym (group-group_by key k [] l))
            (All-pick Timed (λ x. key x == k) l timed))

    -- What holds of all items holds of those under a key of their history.
    All-history_by :
        (P : A → Type 0) (key : A → K) (k : K) (l : List A) {e : Dict K (List A)}
        → All P l
        → history_by h time_of id_of key l ≡ ok e
        → All P (group k e)
    All-history_by P key k l all done =
        All-in_time_order h time_of id_of P (having key k l) (All-pick P (λ x. key x == k) l all)
          (group-history_by h time_of id_of key k l done)

module _ (h : Host) (resolutions : Dict String ResolutionRecord)
    (events : Dict String ConflictLifecycleEvent) where
  abbrev pub input_of :
      Option String
      → Dict String ConflictSet
      → Histories ResolutionRecord
      → Histories ConflictLifecycleEvent
      → FoldInput
  input_of at conflicts rs es = record {
    resolutions_by_id = resolutions;
    resolutions_by_lane = rs.1;
    events_by_lane = es.1;
    conflicts_by_ref = conflicts;
    valid_at = at;
  }

  abbrev HasTime : ConflictLifecycleEvent → Type 0
  HasTime e = Returns (parse_utc_iso h e.timestamp)

  resolutions-Returns :
      All (IsDated h) (values resolutions) → Returns (group_resolution_history h resolutions)
  unfolding group_resolution_history
  resolutions-Returns dated =
      let timed = All-imp (λ r (d : IsDated h r). d.0) (values resolutions) dated in
      then_Returns _ _
        (history_by-Returns h (λ r. r.timestamp) (λ r. r.resolution_id) (λ r. r.conflict_ref)
          (values resolutions) timed)
        (λ by_ref.
          then_Returns _ _
            (history_by-Returns h (λ r. r.timestamp) (λ r. r.resolution_id) resolution_lane
              (values resolutions) timed)
            (λ by_lane. (_, refl)))

  events-Returns : All HasTime (values events) → Returns (group_lifecycle_history h events)
  unfolding group_lifecycle_history
  events-Returns timed =
      then_Returns _ _
        (history_by-Returns h (λ e. e.timestamp) (λ e. e.event_id) (λ e. e.conflict_ref)
          (values events) timed)
        (λ by_ref.
          then_Returns _ _
            (history_by-Returns h (λ e. e.timestamp) (λ e. e.event_id) event_lane (values events)
              timed)
            (λ by_lane. (_, refl)))

  -- If the times of all resolutions and events are timestamps, and so is the instant that is asked
  -- for, if one is, then both histories are made and the fold over them returns.
  pub fold_lifecycle_total :
      (at : Option String) (conflicts : Dict String ConflictSet)
      → All (IsDated h) (values resolutions)
      → All HasTime (values events)
      → IsInstant h at
      → (rs : Histories ResolutionRecord) × (es : Histories ConflictLifecycleEvent) × (f : Fold)
        × (group_resolution_history h resolutions ≡ ok rs)
        × (group_lifecycle_history h events ≡ ok es)
        × (fold_lifecycle h (input_of at conflicts rs es) ≡ ok f)
  fold_lifecycle_total at conflicts dated timed now =
      let (rs, made) = resolutions-Returns dated in
      let (es, done) = events-Returns timed in
      let (f, folded) = fold_lifecycle-Returns h (input_of at conflicts rs es) (record {
        now = now;
        by_id = λ id r there. All-values (IsDated h) id r resolutions dated there;
        resolutions = λ lane.
            All-history_by h (λ r. r.timestamp) (λ r. r.resolution_id) (IsDated h) resolution_lane
              lane (values resolutions) dated (resolution_histories h resolutions made).1;
        events = λ lane.
            All-history_by h (λ e. e.timestamp) (λ e. e.event_id) HasTime event_lane lane
              (values events) timed (event_histories h events done).1;
      }) in
      (rs, es, f, made, done, folded)
