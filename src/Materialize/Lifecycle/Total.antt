-- ===== src/Materialize/Lifecycle/Total.antt =====
-- The fold of the lifecycle returns whenever the times that it reads are timestamps.
use text.Mathlib.Text.{◌==◌}
use statefuse.Base.{
  String, ◌≡◌, refl, ◌∙◌, ap, Bool, true, false, not, Option, none, some, List, [], ◌∷◌, ◌++◌, All,
  if◌then◌else◌,
}
use statefuse.Base.Dict.{Dict, get}
use statefuse.Base.Order.{string_key, nat_key, pair_key, option_key}
use statefuse.Base.Sorted.{sorted, sorted_by}
use statefuse.Base.Groups.{group}
use statefuse.Result.{Result, ok, ◌>>=◌}
use statefuse.Host.{Host, parse_utc_iso}
use statefuse.Conflict.Overlap.{instant_of}
use statefuse.Model.Resolution.{ResolutionRecord}
use statefuse.Model.Lifecycle.{ConflictLifecycleEvent}
use statefuse.Materialize.History.{Lane}
use statefuse.Materialize.Lifecycle.Incremental.{settle_named}
use statefuse.Materialize.Lifecycle.{
  present, resolution_applies, Entry, resolution, event, LaneState, resolution_entries,
  event_entries, apply_event, apply_item, run_timeline, FoldInput, Fold, fold_lane, fold_lanes,
  fold_lifecycle, all_lanes, no_fold, fresh, without_resolution, answers, resolve,
}

abbrev pub Returns {ℓ} : {A : Type ℓ} → Result A → Type ℓ
Returns m = (a : _) × (m ≡ ok a)

pub then_Returns :
    {A B : Type 0} (m : Result A) (next : A → Result B)
    → Returns m
    → ((a : A) → Returns (next a))
    → Returns (m >>= next)
then_Returns m next (a, e) all = let (b, f) = all a in (b, ap (λ x. x >>= next) e ∙ f)

module _ (h : Host) where
  -- The times of a resolution are timestamps, where it has them.
  abbrev pub IsDated : ResolutionRecord → Type 0
  IsDated r =
      Returns (parse_utc_iso h r.timestamp)
      × Returns (instant_of h (present r.valid_from))
      × Returns (instant_of h (present r.valid_until))

  abbrev pub IsInstant : Option String → Type 0
  IsInstant none = Unit
  IsInstant (some at) = Returns (parse_utc_iso h at)

  applies-Returns :
      (at : Option String) (r : ResolutionRecord)
      → IsInstant at
      → IsDated r
      → Returns (resolution_applies h at r)
  unfolding resolution_applies
  applies-Returns none r now dated = (true, refl)
  applies-Returns (some at) r now dated = then_Returns (parse_utc_iso h at) _ now (λ instant.
      then_Returns (instant_of h (present r.valid_from)) _ dated.1 (λ from.
        then_Returns (instant_of h (present r.valid_until)) _ dated.2 (λ until. (_, refl))))

  entries-Returns :
      (at : Option String) (l : List ResolutionRecord)
      → IsInstant at
      → All IsDated l
      → Returns (resolution_entries h at l)
  unfolding resolution_entries
  entries-Returns at [] now dated = ([], refl)
  entries-Returns at (r ∷ l) now dated =
      then_Returns (resolution_applies h at r) _ (applies-Returns at r now dated.0) (λ b.
        then_Returns {A = List Entry} _ _ (entry b) (λ made.
          then_Returns (resolution_entries h at l) _ (entries-Returns at l now dated.1)
            (λ rest. (_, refl))))
    where
      entry :
          (b : Bool)
          → Returns {A = List Entry} (
              if b
              then (do
                t ← parse_utc_iso h r.timestamp
                ok ((((t, 0), r.resolution_id), resolution r) ∷ []))
              else ok [])
      entry true = then_Returns (parse_utc_iso h r.timestamp) _ dated.0.0 (λ t. (_, refl))
      entry false = ([], refl)

  event_entries-Returns :
      (l : List ConflictLifecycleEvent)
      → All (λ e. Returns (parse_utc_iso h e.timestamp)) l
      → Returns (event_entries h l)
  unfolding event_entries
  event_entries-Returns [] dated = ([], refl)
  event_entries-Returns (e ∷ l) dated = then_Returns (parse_utc_iso h e.timestamp) _ dated.0 (λ t.
      then_Returns (event_entries h l) _ (event_entries-Returns l dated.1) (λ rest. (_, refl)))

  apply_event-Returns :
      (at : Option String) (by_id : Dict String ResolutionRecord) (e : ConflictLifecycleEvent)
      → IsInstant at
      → ((id : String) (r : ResolutionRecord) → get id by_id ≡ some r → IsDated r)
      → Returns (apply_event h at by_id e)
  unfolding apply_event
  apply_event-Returns at by_id e now dated = guard (e.status == "resolved")
    where
      name : String
      name = elim e.resolution_id [ none ↦ "" | some id ↦ id ]

      answered :
          (r : ResolutionRecord) (b : Bool)
          → IsDated r
          → Returns {A = LaneState} (
              if not b then ok (without_resolution "open") else (do
                applies ← resolution_applies h at r
                ok (if applies then resolve r else without_resolution "open")))
      answered r true d =
          then_Returns (resolution_applies h at r) _ (applies-Returns at r now d) (λ b. (_, refl))
      answered r false d = (_, refl)

      named : (o : Option ResolutionRecord) → get name by_id ≡ o → Returns (settle_named h at e o)
      named none there = (_, refl)
      named (some r) there = answered r (answers r e) (dated name r there)

      guard :
          (b : Bool)
          → Returns {A = LaneState} (
              if not b
              then ok (without_resolution e.status)
              else settle_named h at e (get name by_id))
      guard true = named (get name by_id) refl
      guard false = (_, refl)

  run_timeline-Returns :
      (at : Option String) (by_id : Dict String ResolutionRecord) (s : LaneState) (l : List Entry)
      → IsInstant at
      → ((id : String) (r : ResolutionRecord) → get id by_id ≡ some r → IsDated r)
      → Returns (run_timeline h at by_id s l)
  unfolding run_timeline apply_item
  run_timeline-Returns at by_id s [] now dated = (s, refl)
  run_timeline-Returns at by_id s ((_, resolution r) ∷ l) now dated =
      run_timeline-Returns at by_id (resolve r) l now dated
  run_timeline-Returns at by_id s ((_, event e) ∷ l) now dated =
      then_Returns (apply_event h at by_id e) _ (apply_event-Returns at by_id e now dated)
        (λ next. run_timeline-Returns at by_id next l now dated)

  -- The times that a fold reads.
  pub record IsReadable (i : FoldInput) : Type 0 where
    pub now : IsInstant i.valid_at
    pub by_id :
        (id : String) (r : ResolutionRecord) → get id i.resolutions_by_id ≡ some r → IsDated r
    pub resolutions : (lane : Lane) → All IsDated (group lane i.resolutions_by_lane)
    pub events :
        (lane : Lane)
        → All (λ e. Returns (parse_utc_iso h e.timestamp)) (group lane i.events_by_lane)

  fold_lane-Returns : (i : FoldInput) (lane : Lane) → IsReadable i → Returns (fold_lane h i lane)
  unfolding fold_lane
  fold_lane-Returns i lane q =
      then_Returns (resolution_entries h i.valid_at (group lane i.resolutions_by_lane)) _
        (entries-Returns i.valid_at (group lane i.resolutions_by_lane) q.now (q.resolutions lane))
        (λ resolutions.
          then_Returns (event_entries h (group lane i.events_by_lane)) _
            (event_entries-Returns (group lane i.events_by_lane) (q.events lane))
            (λ events.
              run_timeline-Returns i.valid_at i.resolutions_by_id fresh
                (sorted_by (λ e. e.0) (resolutions ++ events)) q.now q.by_id))

  fold_lanes-Returns :
      (i : FoldInput) (lanes : List Lane) (f : Fold)
      → IsReadable i
      → Returns (fold_lanes h i f lanes)
  unfolding fold_lanes
  fold_lanes-Returns i [] f q = (f, refl)
  fold_lanes-Returns i (lane ∷ lanes) f q =
      then_Returns (fold_lane h i lane) _ (fold_lane-Returns i lane q)
        (λ s. fold_lanes-Returns i lanes _ q)

  pub fold_lifecycle-Returns : (i : FoldInput) → IsReadable i → Returns (fold_lifecycle h i)
  unfolding fold_lifecycle
  fold_lifecycle-Returns i q =
      then_Returns (fold_lanes h i no_fold (sorted (all_lanes i))) _
        (fold_lanes-Returns i (sorted (all_lanes i)) no_fold q) (λ folded. (_, refl))
