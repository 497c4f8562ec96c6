-- ===== src/Materialize/Lifecycle/Replace.antt =====
-- `_replace_lifecycle_fold_for_ref`: the fold of one conflict, computed again.
pub mod Dicts
pub mod Correct
use statefuse.Base.{String, Option, none, some, List, [], ◌∷◌}
use statefuse.Base.Dict.{Dict, get, keys, pop, update}
use statefuse.Base.Order.{string_key, pair_key, option_key}
use statefuse.Base.Groups.{group}
use statefuse.Result.{Result, ok, ◌>>=◌}
use statefuse.Host.{Host}
use statefuse.Conflict.Identity.{ConflictSet}
use statefuse.Model.Resolution.{ResolutionRecord}
use statefuse.Model.Lifecycle.{ConflictLifecycleEvent}
use statefuse.Materialize.History.{Lane, group_by}
use statefuse.Materialize.Lifecycle.{FoldInput, Fold, lanes_of, fold_lifecycle}

-- The keyword arguments, without the dictionaries that are changed.
pub record RefoldInput : Type 0 where
  pub resolutions_by_id : Dict String ResolutionRecord
  pub resolutions_by_ref : Dict String (List ResolutionRecord)
  pub lifecycle_by_ref : Dict String (List ConflictLifecycleEvent)
  pub conflicts_by_ref : Dict String ConflictSet

module _ {V : Type 0} where
  unfoldable pub pop_lanes : List Lane → Dict Lane V → Dict Lane V
  unfolding pop
  pop_lanes [] d = d
  pop_lanes (lane ∷ lanes) d = pop_lanes lanes (pop lane d)

  -- `for lane in [item for item in d if item[0] == conflict_ref]: d.pop(lane, None)`
  unfoldable pub drop_ref : String → Dict Lane V → Dict Lane V
  unfolding pop_lanes lanes_of
  drop_ref ref d = pop_lanes (lanes_of ref (keys d)) d

-- `{conflict_ref: d[conflict_ref]} if conflict_ref in d else {}`
unfoldable pub only : String → Dict String ConflictSet → Dict String ConflictSet
only ref d = elim (get ref d) [ none ↦ [] | some c ↦ (ref, c) ∷ [] ]

-- What is folded again: the items of the conflict, by lane.
unfoldable pub input_for : String → RefoldInput → FoldInput
unfolding group_by group only
input_for ref r = record {
  resolutions_by_id = r.resolutions_by_id;
  resolutions_by_lane = group_by (λ x. (ref, x.scope)) [] (group ref r.resolutions_by_ref);
  events_by_lane = group_by (λ x. (ref, x.scope)) [] (group ref r.lifecycle_by_ref);
  conflicts_by_ref = only ref r.conflicts_by_ref;
  valid_at = none;
}

unfoldable pub replace_lifecycle_fold_for_ref : Host → String → RefoldInput → Fold → Result Fold
unfolding input_for fold_lifecycle drop_ref update
replace_lifecycle_fold_for_ref h ref r f = do
  folded ← fold_lifecycle h (input_for ref r)
  ok (record {
    active = update (drop_ref ref f.active) folded.active;
    effective = update (drop_ref ref f.effective) folded.effective;
    statuses = update (drop_ref ref f.statuses) folded.statuses;
  })
