-- ===== src/Tests/Lifecycles.antt =====
-- The theorems on the life of a conflict, at one conflict with two resolutions.
use statefuse.Base.{
  String, ◌≡◌, refl, Bool, true, false, ◌↔◌, Option, none, some, List, [], ◌∷◌, if◌then◌else◌,
}
use statefuse.Base.Dict.{Dict, get, put}
use statefuse.Base.Order.{string_key, pair_key, option_key, ◌==◌}
use statefuse.Base.Groups.{group}
use statefuse.Result.{ok}
use statefuse.Conflict.Identity.{ConflictSet}
use statefuse.Model.Resolution.{ResolutionRecord}
use statefuse.Model.Lifecycle.{ConflictLifecycleEvent}
use statefuse.Materialize.History.{
  Lane, Histories, group_resolution_history, group_lifecycle_history, append_resolution_history,
}
use statefuse.Materialize.Lifecycle.{LaneState, FoldInput, Fold, fold_lane, fold_lifecycle}
use statefuse.Materialize.Lifecycle.Lanes.{view, lane_view}
use statefuse.Materialize.Lifecycle.ByLane.{
  fold_lifecycle_lane, IsInForce, fold_lifecycle_effective,
}
use statefuse.Materialize.Lifecycle.Replace.{replace_lifecycle_fold_for_ref}
use statefuse.Materialize.Lifecycle.Replace.Dicts.{fold_lifecycle-IsFold}
use statefuse.Materialize.Lifecycle.Replace.Correct.{replace-fold_lifecycle}
use statefuse.Materialize.History.Lanes.{resolution_lanes, event_lanes}
use statefuse.Materialize.Lifecycle.Added.{replace-append_resolution, append_resolution_history_lem}
use statefuse.Materialize.Lifecycle.Whole.{input_of, fold_lifecycle_total}
use statefuse.Tests.Data.{host}
use statefuse.Tests.Conflicts.{found}

abbrev pub chosen : ResolutionRecord
chosen = record {
  resolution_id = "res-1";
  conflict_ref = "conflict-ref:digest";
  observed_conflict_id = "conflict:digest";
  selected_claim_ids = "claim-1" ∷ [];
  rejected_claim_ids = "claim-2" ∷ [];
  retained_claim_ids = [];
  resolution_type = "manual";
  reason = "the invoice was paid";
  evidence_ids = [];
  actor_id = "alice";
  timestamp = "2024-01-02T00:00:00Z";
  scope = none;
  valid_from = none;
  valid_until = none;
  metadata = [];
  outcome = "select";
}

-- A later one that leaves the question open.
abbrev abstained : ResolutionRecord
abstained = record chosen {
  resolution_id = "res-2";
  selected_claim_ids = [];
  rejected_claim_ids = [];
  retained_claim_ids = "claim-1" ∷ "claim-2" ∷ [];
  outcome = "abstain";
}

abbrev reopening : ConflictLifecycleEvent
reopening = record {
  event_id = "event-1";
  conflict_ref = "conflict-ref:digest";
  observed_conflict_id = "conflict:digest";
  status = "reopened";
  timestamp = "2024-01-01T00:00:00Z";
  reason = "new evidence";
  actor_id = none;
  scope = some "audit";
  resolution_id = none;
  metadata = [];
}

abbrev global : Lane
global = ("conflict-ref:digest", none)

abbrev audit : Lane
audit = ("conflict-ref:digest", some "audit")

abbrev by_id : Dict String ResolutionRecord
by_id = ("res-1", chosen) ∷ []

abbrev events : Dict String ConflictLifecycleEvent
events = ("event-1", reopening) ∷ []

abbrev conflicts : Dict String ConflictSet
conflicts = ("conflict-ref:digest", found) ∷ []

abbrev old : Histories ResolutionRecord
old = (("conflict-ref:digest", chosen ∷ []) ∷ [], (global, chosen ∷ []) ∷ [])

abbrev full : Histories ResolutionRecord
full =
    (("conflict-ref:digest", chosen ∷ abstained ∷ []) ∷ [], (global, chosen ∷ abstained ∷ []) ∷ [])

abbrev filed : Histories ConflictLifecycleEvent
filed = (("conflict-ref:digest", reopening ∷ []) ∷ [], (audit, reopening ∷ []) ∷ [])

before : group_resolution_history host by_id ≡ ok old
unfolding group_resolution_history statefuse.Base.Sorted.sorted put get
before = refl

after : group_resolution_history host (put "res-2" abstained by_id) ≡ ok full
unfolding group_resolution_history statefuse.Base.Sorted.sorted put get statefuse.Base.Order.str_leb
after = refl

events_filed : group_lifecycle_history host events ≡ ok filed
unfolding group_lifecycle_history statefuse.Base.Sorted.sorted put get
events_filed = refl

appended : append_resolution_history host old abstained ≡ ok full
unfolding append_resolution_history get put statefuse.Base.Order.str_leb
appended = refl

abbrev input : FoldInput
input = record {
  resolutions_by_id = by_id;
  resolutions_by_lane = old.1;
  events_by_lane = filed.1;
  conflicts_by_ref = conflicts;
  valid_at = none;
}

abbrev folded : Fold
folded = record {
  active = (global, chosen) ∷ [];
  effective = (global, chosen) ∷ [];
  statuses = (global, "resolved") ∷ (audit, "reopened") ∷ [];
}

fold_runs : fold_lifecycle host input ≡ ok folded
unfolding fold_lifecycle statefuse.Base.Sorted.sorted get
fold_runs = refl

fold_lifecycle_lane_example :
    (s : LaneState) × (fold_lane host input audit ≡ ok s)
    × (view folded audit ≡ lane_view host (get "conflict-ref:digest" conflicts) audit s)
fold_lifecycle_lane_example = fold_lifecycle_lane host input audit fold_runs

fold_lifecycle_effective_example :
    (get global folded.effective ≡ some chosen) ↔ IsInForce host input folded global chosen
fold_lifecycle_effective_example = fold_lifecycle_effective host input global chosen fold_runs

-- The abstention comes later, so the conflict is deferred.
abbrev deferred : Fold
deferred = record {
  active = (global, abstained) ∷ [];
  effective = [];
  statuses = (global, "deferred") ∷ (audit, "reopened") ∷ [];
}

all_runs :
    fold_lifecycle host (record input {
      resolutions_by_id = put "res-2" abstained by_id;
      resolutions_by_lane = full.1;
    })
    ≡ ok deferred
unfolding fold_lifecycle statefuse.Base.Sorted.sorted get statefuse.Base.Order.str_leb
all_runs = refl

replaced :
    replace_lifecycle_fold_for_ref host "conflict-ref:digest"
      (record {
        resolutions_by_id = put "res-2" abstained by_id;
        resolutions_by_ref = full.0;
        lifecycle_by_ref = filed.0;
        conflicts_by_ref = conflicts;
      })
      folded
    ≡ ok deferred
unfolding replace_lifecycle_fold_for_ref statefuse.Base.Sorted.sorted get
    statefuse.Base.Order.str_leb
replaced = refl

new : get "res-2" by_id ≡ none
unfolding get
new = refl

replace-append_resolution_example : view deferred audit ≡ view deferred audit
replace-append_resolution_example =
    replace-append_resolution host by_id abstained new before after events events_filed conflicts
      fold_runs appended replaced all_runs audit

replace-fold_lifecycle_example :
    view deferred global
    ≡ (if global.0 == "conflict-ref:digest" then view deferred global else view folded global)
replace-fold_lifecycle_example =
    replace-fold_lifecycle host "conflict-ref:digest"
      (record {
        resolutions_by_id = put "res-2" abstained by_id;
        resolutions_by_ref = full.0;
        lifecycle_by_ref = filed.0;
        conflicts_by_ref = conflicts;
      })
      (record input {
        resolutions_by_id = put "res-2" abstained by_id;
        resolutions_by_lane = full.1;
      })
      folded
      (record {
        same_ids = refl;
        same_conflicts = refl;
        unscoped = refl;
        resolutions =
            resolution_lanes host (put "res-2" abstained by_id) after "conflict-ref:digest";
        events = event_lanes host events events_filed "conflict-ref:digest";
      })
      (fold_lifecycle-IsFold host input fold_runs) replaced all_runs global

append_resolution_history_lem_example :
    ((ref : String) → group ref full.0 ≡ group ref full.0)
    × ((lane : Lane) → group lane full.1 ≡ group lane full.1)
append_resolution_history_lem_example =
    append_resolution_history_lem host by_id abstained new before after appended

fold_lifecycle_total_example :
    (rs : Histories ResolutionRecord) × (es : Histories ConflictLifecycleEvent) × (f : Fold)
    × (group_resolution_history host by_id ≡ ok rs)
    × (group_lifecycle_history host events ≡ ok es)
    × (fold_lifecycle host (input_of host by_id events none conflicts rs es) ≡ ok f)
fold_lifecycle_total_example =
    fold_lifecycle_total host by_id events none conflicts
      (((1, refl), (none, refl), (none, refl)), tt) ((1, refl), tt) tt
