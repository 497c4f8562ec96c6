-- ===== src/Materialize/Lifecycle/Refined.antt =====
-- `_fold_lifecycle` refines the reading lane by lane.
use statefuse.Base.{
  String, ◌≡◌, refl, sym, ◌∙◌, ap, ap₂, Bool, true, false, ◌||◌, Option, none, some, List, [], ◌∷◌,
  if◌then◌else◌, arith, inl, inr, Bool-cases, subst, eq_iff,
}
use statefuse.Base.Dict.{Dict, get, get-put, key_refl}
use statefuse.Base.Order.{string_key, pair_key, option_key, ◌==◌}
use statefuse.Base.Sorted.{contains, sorted, contains-sorted}
use statefuse.Host.{Host}
use statefuse.Conflict.Identity.{ConflictSet, unique}
use statefuse.Model.Resolution.{ResolutionRecord}
use statefuse.Materialize.History.{Lane}
use statefuse.Materialize.Lifecycle.{
  Fold, lanes_of, open_by_default, settle_conflict, settle_conflicts,
}
use statefuse.Materialize.Lifecycle.Lanes.{
  LaneView, view, opened, judged, settled, settled_by, contains-unique, contains-lanes_of,
  not_contains-lanes_of, view-settle_lanes,
}

-- What opening a conflict leaves at a lane.
view-open :
    (ref : String) (f : Fold) (lane : Lane)
    → view (open_by_default ref f) lane
      ≡ (if lane.0 == ref then opened lane (view f lane) else view f lane)
unfolding open_by_default
view-open ref f (own, none) = elim (Bool-cases (own == ref)) [
  | inl same ↦
      subst
        (λ x.
          view (open_by_default x f) (own, none)
          ≡ (if own == x then opened (own, none) (view f (own, none)) else view f (own, none)))
        ((eq_iff own ref).0 same) (here (get (own, none) f.statuses) refl)
  | inr other ↦ rw other (away (get (ref, none) f.statuses) refl other)
]
  where
    here :
        (s : Option String)
        → get (own, none) f.statuses ≡ s
        → view (open_by_default own f) (own, none)
          ≡ (if own == own then opened (own, none) (view f (own, none)) else view f (own, none))
    here none e = ground (arith, e, key_refl own, get-put (own, none) (own, none) "open" f.statuses)
    here (some s) e = ground (arith, e, key_refl own)

    away :
        (s : Option String)
        → get (ref, none) f.statuses ≡ s
        → (own == ref) ≡ false
        → view (open_by_default ref f) (own, none) ≡ view f (own, none)
    away none e n = ground (
      arith,
      e,
      n,
      eq_iff ref own,
      eq_iff own ref,
      get-put (ref, none) (own, none) "open" f.statuses,
    )
    away (some s) e n = ground (arith, e)
view-open ref f (own, some scope) = go (get (ref, none) f.statuses) refl
  where
    go :
        (s : Option String)
        → get (ref, none) f.statuses ≡ s
        → view (open_by_default ref f) (own, some scope)
          ≡ (if own == ref then view f (own, some scope) else view f (own, some scope))
    go none e = ground (arith, e, get-put (ref, none) (own, some scope) "open" f.statuses)
    go (some s) e = ground (arith, e)

module _ (h : Host) (lanes : List Lane) (lane : Lane) where
  abbrev round : String → List Lane
  round ref = sorted (unique ((ref, none) ∷ lanes_of ref lanes))

  contains-round :
      (ref : String)
      → contains lane (round ref) ≡ (ref, none) == lane || contains lane (lanes_of ref lanes)
  unfolding contains
  contains-round ref =
      contains-sorted lane (unique ((ref, none) ∷ lanes_of ref lanes))
      ∙ contains-unique lane ((ref, none) ∷ lanes_of ref lanes)

  settled_idle : (c : ConflictSet) (v : LaneView) → v.active ≡ none → settled h c v ≡ v
  settled_idle c v e = ap (judged h c v) e

  opened_active : (v : LaneView) → (opened lane v).active ≡ v.active
  opened_active v = go lane
    where
      go : (l : Lane) → (opened l v).active ≡ v.active
      go (r, none) = refl
      go (r, some s) = refl

  elsewhere : (ref : String) → (lane.0 == ref) ≡ false → ((ref, none) == lane) ≡ false
  elsewhere ref other = ground (arith, other, eq_iff ref lane.0, eq_iff lane.0 ref)

  abbrev chosen : ConflictSet → Bool → LaneView → LaneView
  chosen c b v = if b then settled h c v else v

  -- A round of the loop over the conflicts, at a lane.
  view-settle_conflict :
      (f : Fold) (ref : String) (c : ConflictSet)
      → (contains lane lanes ≡ false → get lane f.active ≡ none)
      → view (settle_conflict h lanes f ref c) lane
        ≡ (if lane.0 == ref then settled h c (opened lane (view f lane)) else view f lane)
  unfolding settle_conflict
  view-settle_conflict f ref c idle =
      view-settle_lanes h c lane (open_by_default ref f) (round ref)
      ∙ ap₂ (chosen c) (contains-round ref) (view-open ref f lane)
      ∙ elim (Bool-cases (lane.0 == ref)) [
        | inl own ↦
            rw (own, contains-lanes_of ref lane lanes own)
              (elim (Bool-cases ((ref, none) == lane || contains lane lanes)) [
                | inl there ↦ rw there refl
                | inr absent ↦ rw absent (
                    sym (
                      settled_idle c (opened lane (view f lane))
                        (opened_active (view f lane) ∙ idle (ground (arith, absent)))))
              ])
        | inr other ↦
            rw (other, not_contains-lanes_of ref lane lanes other, elsewhere ref other) refl
      ]

  settled_active : (c : ConflictSet) (v : LaneView) → (settled h c v).active ≡ v.active
  settled_active c v = go v.active refl
    where
      go : (r : Option ResolutionRecord) → v.active ≡ r → (judged h c v r).active ≡ v.active
      go none e = refl
      go (some r) e = refl

  resettled :
      (c : ConflictSet) (v : LaneView)
      → settled h c (opened lane (settled h c (opened lane v))) ≡ settled h c (opened lane v)
  resettled c v = go lane v.active v.effective v.status
    where
      go :
          (l : Lane) (a e : Option ResolutionRecord) (s : Option String)
          → let w : LaneView = record { active = a; effective = e; status = s } in
            settled h c (opened l (settled h c (opened l w))) ≡ settled h c (opened l w)
      go (r, none) none e none = refl
      go (r, none) none e (some s) = refl
      go (r, none) (some x) e none = ground arith
      go (r, none) (some x) e (some s) = ground arith
      go (r, some scope) none e s = refl
      go (r, some scope) (some x) e s = ground arith

  resettled_by :
      (o : Option ConflictSet) (v : LaneView)
      → settled_by h o lane (settled_by h o lane v) ≡ settled_by h o lane v
  resettled_by none v = refl
  resettled_by (some c) v = resettled c v

  settled_by_active :
      (o : Option ConflictSet) (v : LaneView) → (settled_by h o lane v).active ≡ v.active
  settled_by_active none v = refl
  settled_by_active (some c) v = settled_active c (opened lane v) ∙ opened_active v

  module _ (conflicts : Dict String ConflictSet) where
    abbrev turn : Fold → String → Option ConflictSet → Fold
    turn f ref o = elim o [ none ↦ f | some c ↦ settle_conflict h lanes f ref c ]

    abbrev pub chosen_by : Bool → Option ConflictSet → LaneView → LaneView
    chosen_by b o v = if b then settled_by h o lane v else v

    view-turn :
        (f : Fold) (ref : String) (o : Option ConflictSet)
        → (contains lane lanes ≡ false → get lane f.active ≡ none)
        → view (turn f ref o) lane ≡ chosen_by (lane.0 == ref) o (view f lane)
    view-turn f ref none idle = ground arith
    view-turn f ref (some c) idle = view-settle_conflict f ref c idle

    turn_active :
        (f : Fold) (ref : String) (o : Option ConflictSet)
        → (contains lane lanes ≡ false → get lane f.active ≡ none)
        → get lane (turn f ref o).active ≡ get lane f.active
    turn_active f ref o idle =
        ap (λ v. v.active) (view-turn f ref o idle) ∙ elim (Bool-cases (lane.0 == ref)) [
          | inl own ↦ rw own (settled_by_active o (view f lane))
          | inr other ↦ rw other refl
        ]

    again :
        (b : Bool) (o : Option ConflictSet) (v : LaneView)
        → chosen_by b o (settled_by h o lane v) ≡ settled_by h o lane v
    again true o v = resettled_by o v
    again false o v = refl

    pub view-settle_conflicts :
        (f : Fold) (refs : List String)
        → (contains lane lanes ≡ false → get lane f.active ≡ none)
        → view (settle_conflicts h lanes conflicts f refs) lane
          ≡ chosen_by (contains lane.0 refs) (get lane.0 conflicts) (view f lane)
    unfolding settle_conflicts contains
    view-settle_conflicts f [] idle = refl
    view-settle_conflicts f (ref ∷ refs) idle =
        view-settle_conflicts (turn f ref (get ref conflicts)) refs
          (λ absent. turn_active f ref (get ref conflicts) idle ∙ idle absent)
        ∙ ap (chosen_by (contains lane.0 refs) (get lane.0 conflicts))
            (view-turn f ref (get ref conflicts) idle)
        ∙ elim (Bool-cases (ref == lane.0)) [
          | inl own ↦
              let e = (eq_iff ref lane.0).0 own in
              rw (own, e, key_refl lane.0)
                (again (contains lane.0 refs) (get lane.0 conflicts) (view f lane))
          | inr other ↦ rw (other, sym_test ref other) refl
        ]
      where
        sym_test : (r : String) → (r == lane.0) ≡ false → (lane.0 == r) ≡ false
        sym_test r other = ground (arith, other, eq_iff r lane.0, eq_iff lane.0 r)
