-- ===== src/Materialize/Lifecycle/Lanes.antt =====
-- What `_fold_lifecycle` returns for a lane, from the items of that lane alone.
use statefuse.Base.{
  String, ◌≡◌, ◌↔◌, refl, sym, ◌∙◌, ap, Bool, true, false, ◌||◌, Option, none, some, List, [], ◌∷◌,
  ◌++◌, if◌then◌else◌, arith, inl, inr, Bool-cases, subst,
}
use statefuse.Base.Dict.{Dict, get, keys, or_else, get-put, key_refl}
use statefuse.Base.Order.{string_key, pair_key, option_key, ◌==◌}
use statefuse.Base.Sorted.{contains, sorted_by, contains-keys}
use statefuse.Base.Groups.{group, contains-append}
use statefuse.Result.{ok, >>=-eq-ok, ok-injective}
use statefuse.Host.{Host}
use statefuse.Model.Resolution.{ResolutionRecord}
use statefuse.Conflict.Identity.{ConflictSet, unique}
use statefuse.Materialize.History.{Lane}
use statefuse.Materialize.Lifecycle.{
  LaneState, fresh, FoldInput, Fold, fold_lane, put_option, fold_lanes, judge, settle, settle_lanes,
  lanes_of, all_lanes, resolution_entries, event_entries, run_timeline,
}

-- What the three dictionaries hold at a lane.
pub record LaneView : Type 0 where
  pub active : Option ResolutionRecord
  pub effective : Option ResolutionRecord
  pub status : Option String

abbrev pub view : Fold → Lane → LaneView
view f lane = record {
  active = get lane f.active;
  effective = get lane f.effective;
  status = get lane f.statuses;
}

-- A conflict has a status in its global lane.
abbrev pub opened : Lane → LaneView → LaneView
opened (ref, none) v = record v { status = or_else v.status (some "open") }
opened (ref, some scope) v = v

-- An active resolution is judged against the conflict.
abbrev pub judged : Host → ConflictSet → LaneView → Option ResolutionRecord → LaneView
judged h c v none = v
judged h c v (some r) = record v {
  effective = if (judge h c r).1 then some r else v.effective;
  status = some (judge h c r).0;
}

abbrev pub settled : Host → ConflictSet → LaneView → LaneView
settled h c v = judged h c v v.active

abbrev pub settled_by : Host → Option ConflictSet → Lane → LaneView → LaneView
settled_by h none lane v = v
settled_by h (some c) lane v = settled h c (opened lane v)

abbrev pub unsettled : LaneState → LaneView
unsettled s = record { active = s.active; effective = none; status = s.status }

-- The reference: the timeline of the lane, and then the conflict if it is there.
abbrev pub lane_view : Host → Option ConflictSet → Lane → LaneState → LaneView
lane_view h conflict lane s = settled_by h conflict lane (unsettled s)

get-put_option :
    {V : Type 0} (lane at : Lane) (v : Option V) (d : Dict Lane V)
    → get at (put_option lane v d) ≡ (if lane == at then or_else v (get at d) else get at d)
unfolding put_option
get-put_option lane at none d = ground arith
get-put_option lane at (some v) d = get-put lane at v d ∙ ground arith

pub contains-unique : (lane : Lane) (l : List Lane) → contains lane (unique l) ≡ contains lane l
unfolding unique contains
contains-unique lane [] = refl
contains-unique lane (x ∷ l) =
    ground (arith, contains-unique lane l, contains-unique x l, lane_eq_iff x lane)
  where
    lane_eq_iff : (x y : Lane) → ((x == y) ≡ true) ↔ (x ≡ y)
    lane_eq_iff x y = pair_key.beq_iff x y

pub lane_eq_iff : (x y : Lane) → ((x == y) ≡ true) ↔ (x ≡ y)
lane_eq_iff x y = pair_key.beq_iff x y

-- A lane without items is left alone.
pub fold_lane_new :
    (h : Host) (i : FoldInput) (lane : Lane)
    → contains lane (all_lanes i) ≡ false
    → fold_lane h i lane ≡ ok fresh
unfolding fold_lane group resolution_entries event_entries run_timeline sorted_by
fold_lane_new h i lane absent = ground (
  arith,
  absent,
  contains-unique lane (keys i.resolutions_by_lane ++ keys i.events_by_lane),
  contains-append lane (keys i.resolutions_by_lane) (keys i.events_by_lane),
  contains-keys lane i.resolutions_by_lane,
  contains-keys lane i.events_by_lane,
)

-- What the loop over the lanes leaves at one of them.
abbrev pub after_lanes : Bool → LaneState → LaneView → LaneView
after_lanes done s v =
    if done
    then record v { active = or_else s.active v.active; status = or_else s.status v.status }
    else v

module _ (h : Host) (i : FoldInput) (lane : Lane) where
  abbrev next_fold : Fold → Lane → LaneState → Fold
  next_fold f at s = record f {
    active = put_option at s.active f.active;
    statuses = put_option at s.status f.statuses;
  }

  view-next :
      (f : Fold) (at : Lane) (s : LaneState)
      → view (next_fold f at s) lane ≡ after_lanes (at == lane) s (view f lane)
  view-next f at s =
      ground (
        arith,
        get-put_option at lane s.active f.active,
        get-put_option at lane s.status f.statuses,
      )

  -- Every lane of the loop was folded.
  pub fold_lanes-folded :
      (f : Fold) (lanes : List Lane) {g : Fold}
      → fold_lanes h i f lanes ≡ ok g
      → contains lane lanes ≡ true
      → (s : LaneState) × (fold_lane h i lane ≡ ok s)
  unfolding fold_lanes contains
  fold_lanes-folded f [] done there = cc
  fold_lanes-folded f (at ∷ lanes) done there =
      let (s, folded, rest) = >>=-eq-ok (fold_lane h i at) _ done in
      elim (Bool-cases (at == lane)) [
        | inl same ↦ (s, ap (fold_lane h i) (sym ((lane_eq_iff at lane).0 same)) ∙ folded)
        | inr other ↦ fold_lanes-folded (next_fold f at s) lanes rest (ground (arith, other, there))
      ]

  pub view-fold_lanes :
      (s : LaneState) (f : Fold) (lanes : List Lane) {g : Fold}
      → fold_lane h i lane ≡ ok s
      → fold_lanes h i f lanes ≡ ok g
      → view g lane ≡ after_lanes (contains lane lanes) s (view f lane)
  unfolding fold_lanes contains
  view-fold_lanes s f [] folded done = ground (arith, done)
  view-fold_lanes s f (at ∷ lanes) folded done =
      let (t, here, rest) = >>=-eq-ok (fold_lane h i at) _ done in
      elim (Bool-cases (at == lane)) [
        | inl same ↦
            let e : t ≡ s =
              ok-injective
                (sym here ∙ ap (fold_lane h i) ((lane_eq_iff at lane).0 same) ∙ folded) in
            ground (
              arith,
              same,
              e,
              view-next f at t,
              view-fold_lanes s (next_fold f at t) lanes folded rest,
            )
        | inr other ↦
            ground (
              arith,
              other,
              view-next f at t,
              view-fold_lanes s (next_fold f at t) lanes folded rest,
            )
      ]

pub same_ref : (at lane : Lane) → (at == lane) ≡ true → at.0 ≡ lane.0
same_ref at lane same = ap (λ x. x.0) ((lane_eq_iff at lane).0 same)

pub contains-lanes_of :
    (ref : String) (lane : Lane) (lanes : List Lane)
    → (lane.0 == ref) ≡ true
    → contains lane (lanes_of ref lanes) ≡ contains lane lanes
unfolding contains lanes_of
contains-lanes_of ref lane [] own = refl
contains-lanes_of ref lane (at ∷ lanes) own = elim (Bool-cases (at.0 == ref)) [
  | inl here ↦ rw here (ap (λ b. (at == lane) || b) (contains-lanes_of ref lane lanes own))
  | inr there ↦ elim (Bool-cases (at == lane)) [
    | inl same ↦ absurd (ground (arith, there, own, same_ref at lane same))
    | inr other ↦ rw (there, other) (contains-lanes_of ref lane lanes own)
  ]
]

pub not_contains-lanes_of :
    (ref : String) (lane : Lane) (lanes : List Lane)
    → (lane.0 == ref) ≡ false
    → contains lane (lanes_of ref lanes) ≡ false
unfolding contains lanes_of
not_contains-lanes_of ref lane [] own = refl
not_contains-lanes_of ref lane (at ∷ lanes) own = elim (Bool-cases (at.0 == ref)) [
  | inl here ↦ elim (Bool-cases (at == lane)) [
    | inl same ↦ absurd (ground (arith, here, own, same_ref at lane same))
    | inr other ↦ rw (here, other) (not_contains-lanes_of ref lane lanes own)
  ]
  | inr there ↦ rw there (not_contains-lanes_of ref lane lanes own)
]

module _ (h : Host) (c : ConflictSet) (lane : Lane) where
  view-settle :
      (f : Fold) (at : Lane)
      → view (settle h c f at) lane
        ≡ (if at == lane then settled h c (view f lane) else view f lane)
  unfolding settle
  view-settle f at = elim (Bool-cases (at == lane)) [
    | inl same ↦
        subst
          (λ x.
            view (settle h c f x) lane
            ≡ (if x == lane then settled h c (view f lane) else view f lane))
          (sym ((lane_eq_iff at lane).0 same)) (here (get lane f.active) refl)
    | inr other ↦ rw other (away (get at f.active) refl other)
  ]
    where
      here :
          (r : Option ResolutionRecord)
          → get lane f.active ≡ r
          → view (settle h c f lane) lane
            ≡ (if lane == lane then settled h c (view f lane) else view f lane)
      here none e = rw (e, key_refl lane) (ground (arith, e))
      here (some r) e = ground (
        arith,
        e,
        key_refl lane,
        get-put lane lane r f.effective,
        get-put lane lane (judge h c r).0 f.statuses,
      )

      away :
          (r : Option ResolutionRecord)
          → get at f.active ≡ r
          → (at == lane) ≡ false
          → view (settle h c f at) lane ≡ view f lane
      away none e n = ground (arith, e)
      away (some r) e n =
          ground
            (arith, e, n, get-put at lane r f.effective, get-put at lane (judge h c r).0 f.statuses)

  pub settled_idem : (v : LaneView) → settled h c (settled h c v) ≡ settled h c v
  settled_idem v = go v.active v.effective v.status
    where
      go :
          (a e : Option ResolutionRecord) (s : Option String)
          → let w : LaneView = record { active = a; effective = e; status = s } in
            settled h c (settled h c w) ≡ settled h c w
      go none e s = refl
      go (some r) e s = ground arith

  pub view-settle_lanes :
      (f : Fold) (lanes : List Lane)
      → view (settle_lanes h c f lanes) lane
        ≡ (if contains lane lanes then settled h c (view f lane) else view f lane)
  unfolding settle_lanes contains
  view-settle_lanes f [] = refl
  view-settle_lanes f (at ∷ lanes) = ground (
    arith,
    view-settle_lanes (settle h c f at) lanes,
    view-settle f at,
    settled_idem (view f lane),
  )
