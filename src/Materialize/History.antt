-- ===== src/Materialize/History.antt =====
-- `_group_resolution_history`, `_group_lifecycle_history` and their incremental counterparts:
-- resolutions and events by conflict and by lane, in the order of time.
pub mod Groups
pub mod Ordered
pub mod Index
pub mod Lanes
use statefuse.Base.{ℕ, String, Option, List, [], ◌∷◌, ◌++◌, map}
use statefuse.Base.Dict.{Dict, values, put, keys}
use statefuse.Base.Order.{Key, string_key, nat_key, pair_key, option_key}
use statefuse.Base.Sorted.{sorted, sorted_by}
use statefuse.Base.Groups.{group, append_to}
use statefuse.Result.{Result, ok, ◌>>=◌}
use statefuse.Host.{Host, parse_utc_iso}
use statefuse.Model.Resolution.{ResolutionRecord}
use statefuse.Model.Lifecycle.{ConflictLifecycleEvent}

-- A conflict and a scope. `_lane_sort_key` puts no scope before every scope, as the order of
-- options does.
abbrev pub Lane : Type 0
Lane = String × Option String

-- An item with the key of its place: its instant and its identifier.
abbrev pub Keyed : Type 0 → Type 0
Keyed A = (ℕ × String) × A

module _ {A K : Type 0} ⦃o : Key K⦄ (key : A → K) where
  -- The loop that files each item under its key.
  unfoldable pub group_by : Dict K (List A) → List A → Dict K (List A)
  unfolding append_to
  group_by d [] = d
  group_by d (x ∷ l) = group_by (append_to (key x) x d) l

module _ {A : Type 0} (h : Host) (time_of : A → String) (id_of : A → String) where
  -- `sorted` takes the keys of all items first.
  unfoldable pub with_keys : List A → Result (List (Keyed A))
  with_keys [] = ok []
  with_keys (x ∷ l) = do
    t ← parse_utc_iso h (time_of x)
    rest ← with_keys l
    ok (((t, id_of x), x) ∷ rest)

  -- `sorted(items, key=lambda item: (_timestamp(item.timestamp), item.id))`
  unfoldable pub in_time_order : List A → Result (List A)
  unfolding with_keys sorted_by
  in_time_order l = do keyed ← with_keys l; ok (map (λ x. x.1) (sorted_by (λ x. x.0) keyed))

  module _ {K : Type 0} ⦃o : Key K⦄ where
    -- `{key: tuple(sorted(d[key])) for key in keys}`
    unfoldable pub order_groups : Dict K (List A) → List K → Result (Dict K (List A))
    unfolding group in_time_order
    order_groups d [] = ok []
    order_groups d (k ∷ ks) = do
      items ← in_time_order (group k d)
      rest ← order_groups d ks
      ok ((k, items) ∷ rest)

    unfoldable pub history_by : (A → K) → List A → Result (Dict K (List A))
    unfolding group_by order_groups
    history_by key l = order_groups (group_by key [] l) (sorted (keys (group_by key [] l)))

    -- `d[key] = tuple(sorted((*d.get(key, ()), item)))`
    unfoldable pub append_history : K → A → Dict K (List A) → Result (Dict K (List A))
    unfolding group in_time_order
    append_history k x d = do items ← in_time_order (group k d ++ x ∷ []); ok (put k items d)

-- By conflict, and by lane.
abbrev pub Histories : Type 0 → Type 0
Histories A = Dict String (List A) × Dict Lane (List A)

unfoldable pub group_resolution_history :
    Host → Dict String ResolutionRecord → Result (Histories ResolutionRecord)
unfolding history_by
group_resolution_history h by_id = do
  by_ref ←
      history_by h (λ r. r.timestamp) (λ r. r.resolution_id) (λ r. r.conflict_ref) (values by_id)
  by_lane ←
      history_by h (λ r. r.timestamp) (λ r. r.resolution_id) (λ r. (r.conflict_ref, r.scope))
        (values by_id)
  ok (by_ref, by_lane)

unfoldable pub group_lifecycle_history :
    Host → Dict String ConflictLifecycleEvent → Result (Histories ConflictLifecycleEvent)
unfolding history_by
group_lifecycle_history h by_id = do
  by_ref ← history_by h (λ e. e.timestamp) (λ e. e.event_id) (λ e. e.conflict_ref) (values by_id)
  by_lane ←
      history_by h (λ e. e.timestamp) (λ e. e.event_id) (λ e. (e.conflict_ref, e.scope))
        (values by_id)
  ok (by_ref, by_lane)

unfoldable pub append_resolution_history :
    Host → Histories ResolutionRecord → ResolutionRecord → Result (Histories ResolutionRecord)
unfolding append_history
append_resolution_history h (by_ref, by_lane) r = do
  refs ← append_history h (λ x. x.timestamp) (λ x. x.resolution_id) r.conflict_ref r by_ref
  lanes ←
      append_history h (λ x. x.timestamp) (λ x. x.resolution_id) (r.conflict_ref, r.scope) r by_lane
  ok (refs, lanes)

unfoldable pub append_lifecycle_history :
    Host
    → Histories ConflictLifecycleEvent
    → ConflictLifecycleEvent
    → Result (Histories ConflictLifecycleEvent)
unfolding append_history
append_lifecycle_history h (by_ref, by_lane) e = do
  refs ← append_history h (λ x. x.timestamp) (λ x. x.event_id) e.conflict_ref e by_ref
  lanes ← append_history h (λ x. x.timestamp) (λ x. x.event_id) (e.conflict_ref, e.scope) e by_lane
  ok (refs, lanes)
