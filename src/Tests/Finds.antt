-- ===== src/Tests/Finds.antt =====
-- The theorem on `find_conflicts`, for a conflict with a resolution.
use statefuse.Base.{String, ◌≡◌, refl, true, none, some, List, [], ◌∷◌, inl, In, is_some}
use statefuse.Base.Dict.{get}
use statefuse.Base.Order.{string_key, pair_key, option_key}
use statefuse.Result.{ok}
use statefuse.Ops.{Op, claim_added, resolution_added}
use statefuse.OpLog.{OpLog}
use statefuse.Materialize.Facts.{Facts, no_facts}
use statefuse.Materialize.Active.{Scope, Split}
use statefuse.Materialize.Lifecycle.{Fold}
use statefuse.Materialize.State.{MemoryState, state_of, materialize}
use statefuse.Materialize.Find.{Query, lane_for, find_conflicts}
use statefuse.Materialize.Find.Reported.{find_conflicts-resolved}
use statefuse.Tests.Data.{host}
use statefuse.Tests.Conflicts.{paid, unpaid, rules, found}
use statefuse.Tests.Lifecycles.{chosen}

abbrev adds_paid : Op
adds_paid = record {
  op_id = "op-1";
  replica_id = "alpha";
  timestamp = "2024-01-01T00:00:00Z";
  body = claim_added paid;
}

abbrev adds_unpaid : Op
adds_unpaid = record adds_paid { op_id = "op-2"; body = claim_added unpaid }

abbrev resolves : Op
resolves = record adds_paid { op_id = "op-3"; body = resolution_added chosen }

abbrev log : OpLog
log = ("op-1", adds_paid) ∷ ("op-2", adds_unpaid) ∷ ("op-3", resolves) ∷ []

abbrev now : Scope
now = record { valid_at = none; context = none }

abbrev facts : Facts
facts = record no_facts {
  claims_by_id = ("claim-1", paid) ∷ ("claim-2", unpaid) ∷ [];
  claim_refs_by_id = ("claim-1", "sha256:digest") ∷ ("claim-2", "sha256:digest") ∷ [];
  claim_ids_by_ref = ("sha256:digest", "claim-1" ∷ "claim-2" ∷ []) ∷ [];
  resolutions_by_id = ("res-1", chosen) ∷ [];
}

abbrev split : Split
split = record { active = (paid.key, paid ∷ unpaid ∷ []) ∷ []; inapplicable = [] }

abbrev fold : Fold
fold = record {
  active = (("conflict-ref:digest", none), chosen) ∷ [];
  effective = (("conflict-ref:digest", none), chosen) ∷ [];
  statuses = (("conflict-ref:digest", none), "resolved") ∷ [];
}

abbrev state : MemoryState
state =
    state_of rules facts split [] (found ∷ [])
      (("conflict-ref:digest", chosen ∷ []) ∷ [], (("conflict-ref:digest", none), chosen ∷ []) ∷ [])
      ([], []) fold

made : materialize host rules [] now log ≡ ok state
unfolding materialize statefuse.Base.Sorted.in_order statefuse.Base.Sorted.select
    statefuse.Base.Sorted.sorted statefuse.Base.Order.str_leb get
    statefuse.Model.Claim.derive_claim_ref statefuse.Json.json_eq statefuse.Model.Claim.to_dict
made = refl

-- The resolved conflicts, in any scope.
abbrev resolved : Query
resolved = record {
  conflict_id = none;
  conflict_ref = none;
  conflict_type = none;
  conflict_class = none;
  conflict_subclass = none;
  detector_id = none;
  claim_id = none;
  source_id = none;
  source_type = none;
  key = none;
  namespace = none;
  context = none;
  status = some "resolved";
  scope = some "audit";
}

reported : In found (find_conflicts state resolved)
unfolding find_conflicts statefuse.Base.Sorted.sorted_by get
reported = inl refl

find_conflicts-resolved_example :
    In found state.conflicts
    × (is_some (get (lane_for state resolved.scope found) state.lifecycle.effective) ≡ true)
find_conflicts-resolved_example =
    find_conflicts-resolved host rules [] now log resolved found made refl reported
