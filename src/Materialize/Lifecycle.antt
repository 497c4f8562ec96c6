-- ===== src/Materialize/Lifecycle.antt =====
-- `_fold_lifecycle`: the status of each conflict in each scope, and the resolution in force.
pub mod Lanes
pub mod Refined
pub mod ByLane
pub mod Replace
pub mod Incremental
pub mod Added
pub mod Total
pub mod Whole
use text.Mathlib.Text.{◌==◌}
use statefuse.Base.{
  ℕ, suc, String, Bool, true, false, not, ◌&&◌, ◌||◌, Option, none, some, List, [], ◌∷◌, ◌++◌, map,
  if◌then◌else◌, all, any, length, ltb, leb, is_some,
}
use statefuse.Base.{◌==◌ as nat_eq}
use statefuse.Base.Dict.{Dict, get, put, keys}
use statefuse.Base.Order.{string_key, nat_key, pair_key, option_key, ◌==◌ as key_eq}
use statefuse.Base.Sorted.{contains, sorted, sorted_by}
use statefuse.Base.Groups.{group}
use statefuse.Result.{Result, ok, ◌>>=◌}
use statefuse.Host.{Host, parse_utc_iso}
use statefuse.Model.Claim.{Claim}
use statefuse.Model.Resolution.{ResolutionRecord}
use statefuse.Model.Lifecycle.{ConflictLifecycleEvent}
use statefuse.Conflict.Identity.{ConflictSet, unique, claim_ids_of, derive_conflict_id}
use statefuse.Conflict.Detect.{kind_of}
use statefuse.Conflict.Overlap.{in_bounds, instant_of}
use statefuse.Materialize.History.{Lane}

-- `x if x else None` for an optional text
abbrev pub present : Option String → Option String
present none = none
present (some s) = if s == "" then none else some s

unfoldable pub resolution_applies : Host → Option String → ResolutionRecord → Result Bool
unfolding in_bounds
resolution_applies h none r = ok true
resolution_applies h (some at) r = do
  instant ← parse_utc_iso h at
  from ← instant_of h (present r.valid_from)
  until ← instant_of h (present r.valid_until)
  ok (in_bounds (from, until) instant)

pub data Item : Type 0 where
  resolution : ResolutionRecord → Item
  event : ConflictLifecycleEvent → Item

-- The first three parts of an entry of the timeline, and the item.
abbrev pub Entry : Type 0
Entry = ((ℕ × ℕ) × String) × Item

unfoldable pub resolution_entries :
    Host → Option String → List ResolutionRecord → Result (List Entry)
unfolding resolution_applies
resolution_entries h at [] = ok []
resolution_entries h at (r ∷ l) = do
  applies ← resolution_applies h at r
  entry ←
      (if applies
        then (do
          t ← parse_utc_iso h r.timestamp
          ok ((((t, 0), r.resolution_id), resolution r) ∷ []))
        else ok [])
  rest ← resolution_entries h at l
  ok (entry ++ rest)

unfoldable pub event_entries : Host → List ConflictLifecycleEvent → Result (List Entry)
event_entries h [] = ok []
event_entries h (e ∷ l) = do
  t ← parse_utc_iso h e.timestamp
  rest ← event_entries h l
  ok ((((t, 1), e.event_id), event e) ∷ rest)

-- What the loop over a timeline leaves in `active` and `statuses` for its lane.
pub record LaneState : Type 0 where
  pub active : Option ResolutionRecord
  pub status : Option String

abbrev pub fresh : LaneState
fresh = record { active = none; status = none }

-- `"deferred" if resolution.outcome == "abstain" else "resolved"`
abbrev pub resolve : ResolutionRecord → LaneState
resolve r = record {
  active = some r;
  status = some (if r.outcome == "abstain" then "deferred" else "resolved");
}

abbrev pub without_resolution : String → LaneState
without_resolution status = record { active = none; status = some status }

-- The resolution that an event names is one of its conflict and scope.
abbrev pub answers : ResolutionRecord → ConflictLifecycleEvent → Bool
answers r e =
    (r.conflict_ref == e.conflict_ref)
    && key_eq r.scope e.scope
    && (r.observed_conflict_id == e.observed_conflict_id)

-- `resolutions_by_id.get(event.resolution_id or "")`
abbrev pub named_resolution :
    Dict String ResolutionRecord → ConflictLifecycleEvent → Option ResolutionRecord
named_resolution by_id e = get (elim e.resolution_id [ none ↦ "" | some id ↦ id ]) by_id

unfoldable pub apply_event :
    Host → Option String → Dict String ResolutionRecord → ConflictLifecycleEvent → Result LaneState
unfolding resolution_applies
apply_event h at by_id e =
    if not (e.status == "resolved")
    then ok (without_resolution e.status)
    else (elim (named_resolution by_id e) [
      | none ↦ ok (without_resolution "open")
      | some r ↦ if not (answers r e) then ok (without_resolution "open") else (do
        applies ← resolution_applies h at r
        ok (if applies then resolve r else without_resolution "open"))
    ])

-- Each item settles the lane by itself: the last one counts.
unfoldable pub apply_item :
    Host → Option String → Dict String ResolutionRecord → Item → Result LaneState
unfolding apply_event
apply_item h at by_id (resolution r) = ok (resolve r)
apply_item h at by_id (event e) = apply_event h at by_id e

unfoldable pub run_timeline :
    Host → Option String → Dict String ResolutionRecord → LaneState → List Entry → Result LaneState
unfolding apply_item
run_timeline h at by_id s [] = ok s
run_timeline h at by_id s ((_, item) ∷ l) = do
  next ← apply_item h at by_id item
  run_timeline h at by_id next l

-- The keyword arguments of `_fold_lifecycle`.
pub record FoldInput : Type 0 where
  pub resolutions_by_id : Dict String ResolutionRecord
  pub resolutions_by_lane : Dict Lane (List ResolutionRecord)
  pub events_by_lane : Dict Lane (List ConflictLifecycleEvent)
  pub conflicts_by_ref : Dict String ConflictSet
  pub valid_at : Option String

-- A round of the loop over the lanes.
unfoldable pub fold_lane : Host → FoldInput → Lane → Result LaneState
unfolding group resolution_entries event_entries run_timeline
fold_lane h i lane = do
  resolutions ← resolution_entries h i.valid_at (group lane i.resolutions_by_lane)
  events ← event_entries h (group lane i.events_by_lane)
  run_timeline h i.valid_at i.resolutions_by_id fresh (sorted_by (λ e. e.0) (resolutions ++ events))

-- The three dictionaries.
pub record Fold : Type 0 where
  pub active : Dict Lane ResolutionRecord
  pub effective : Dict Lane ResolutionRecord
  pub statuses : Dict Lane String

-- `d[k] = v`, if the loop left a value
unfoldable pub put_option : {V : Type 0} → Lane → Option V → Dict Lane V → Dict Lane V
unfolding put
put_option lane none d = d
put_option lane (some v) d = put lane v d

unfoldable pub fold_lanes : Host → FoldInput → Fold → List Lane → Result Fold
unfolding fold_lane put_option
fold_lanes h i f [] = ok f
fold_lanes h i f (lane ∷ lanes) = do
  s ← fold_lane h i lane
  fold_lanes h i
      (record f {
        active = put_option lane s.active f.active;
        statuses = put_option lane s.status f.statuses;
      })
      lanes

-- `xs <= ys` for sets
unfoldable pub subset : List String → List String → Bool
unfolding contains
subset xs ys = all (λ x. contains x ys) xs

abbrev pub classified : ResolutionRecord → List String
classified r = unique (r.selected_claim_ids ++ r.rejected_claim_ids ++ r.retained_claim_ids)

-- The conflict that the resolution was made for is the present one, by its identifier.
unfoldable pub observed_matches : Host → ConflictSet → ResolutionRecord → Bool
unfolding unique derive_conflict_id
observed_matches h c r =
    r.observed_conflict_id == derive_conflict_id h c.key (classified r) (kind_of c)

abbrev pub is_empty_list : List String → Bool
is_empty_list [] = true
is_empty_list (x ∷ l) = false

-- `len(current_ids & set(resolution.selected_claim_ids))`
unfoldable pub count_selected : List String → List String → ℕ
unfolding contains
count_selected [] selected = 0
count_selected (id ∷ ids) selected =
    let rest = count_selected ids selected in if contains id selected then suc rest else rest

-- The outcome fits the claims: a preservation retains them all, a selection names one of them.
unfoldable pub outcome_fits : List String → ResolutionRecord → Bool
unfolding subset count_selected
outcome_fits current r =
    ((r.outcome == "preserve")
      && is_empty_list r.selected_claim_ids
      && is_empty_list r.rejected_claim_ids
      && subset current r.retained_claim_ids)
    || (any (λ o. r.outcome == o) ("select" ∷ "replace" ∷ "merge" ∷ [])
        && nat_eq (count_selected current r.selected_claim_ids) 1)

-- The status of a lane with an active resolution, and whether the resolution is in force.
unfoldable pub judge : Host → ConflictSet → ResolutionRecord → String × Bool
unfolding observed_matches subset outcome_fits
judge h c r =
    let current = unique (claim_ids_of c.candidates) in
    let covers = observed_matches h c r && subset current (classified r) in
    if r.outcome == "abstain"
    then (if covers then "deferred" else "reopened", false)
    else if covers && outcome_fits current r
    then ("resolved", true)
    else ("reopened", false)

unfoldable pub settle : Host → ConflictSet → Fold → Lane → Fold
unfolding judge put_option
settle h c f lane = elim (get lane f.active) [
  | none ↦ f
  | some r ↦ record f {
    effective = if (judge h c r).1 then put lane r f.effective else f.effective;
    statuses = put lane (judge h c r).0 f.statuses;
  }
]

unfoldable pub settle_lanes : Host → ConflictSet → Fold → List Lane → Fold
unfolding settle
settle_lanes h c f [] = f
settle_lanes h c f (lane ∷ lanes) = settle_lanes h c (settle h c f lane) lanes

-- `[lane for lane in lanes if lane[0] == conflict_ref]`
unfoldable pub lanes_of : String → List Lane → List Lane
lanes_of ref [] = []
lanes_of ref (lane ∷ lanes) =
    let rest = lanes_of ref lanes in if lane.0 == ref then lane ∷ rest else rest

-- `statuses.setdefault((conflict_ref, None), "open")`
unfoldable pub open_by_default : String → Fold → Fold
open_by_default ref f =
    if is_some (get (ref, none) f.statuses)
    then f
    else record f { statuses = put (ref, none) "open" f.statuses }

-- A round of the loop over the conflicts.
unfoldable pub settle_conflict : Host → List Lane → Fold → String → ConflictSet → Fold
unfolding settle_lanes lanes_of open_by_default unique
settle_conflict h lanes f ref c =
    settle_lanes h c (open_by_default ref f) (sorted (unique ((ref, none) ∷ lanes_of ref lanes)))

unfoldable pub settle_conflicts :
    Host → List Lane → Dict String ConflictSet → Fold → List String → Fold
unfolding settle_conflict
settle_conflicts h lanes conflicts f [] = f
settle_conflicts h lanes conflicts f (ref ∷ refs) =
    settle_conflicts h lanes conflicts
      (elim (get ref conflicts) [ none ↦ f | some c ↦ settle_conflict h lanes f ref c ]) refs

abbrev pub all_lanes : FoldInput → List Lane
all_lanes i = unique (keys i.resolutions_by_lane ++ keys i.events_by_lane)

abbrev pub no_fold : Fold
no_fold = record { active = []; effective = []; statuses = [] }

unfoldable pub fold_lifecycle : Host → FoldInput → Result Fold
unfolding fold_lanes settle_conflicts
fold_lifecycle h i = do
  folded ← fold_lanes h i no_fold (sorted (all_lanes i))
  ok (settle_conflicts h (all_lanes i) i.conflicts_by_ref folded (sorted (keys i.conflicts_by_ref)))
