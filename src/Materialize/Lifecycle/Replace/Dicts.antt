-- ===== src/Materialize/Lifecycle/Replace/Dicts.antt =====
-- The dictionaries of a fold hold each lane once, and lose the lanes of one conflict.
use statefuse.Base.{
  String, ◌≡◌, refl, ◌∙◌, ap, Bool, true, false, Option, none, some, List, [], ◌∷◌, if◌then◌else◌,
  inl, inr, Bool-cases, is_some, subst, ◌||◌,
}
use statefuse.Base.Dict.{Dict, IsDict, get, put, keys, pop, get-pop, pop-IsDict, put-IsDict}
use statefuse.Base.Order.{string_key, pair_key, option_key, ◌==◌}
use statefuse.Base.Sorted.{contains, sorted, contains-keys}
use statefuse.Result.{ok, >>=-eq-ok, ok-injective}
use statefuse.Host.{Host}
use statefuse.Conflict.Identity.{ConflictSet, unique}
use statefuse.Model.Resolution.{ResolutionRecord}
use statefuse.Materialize.History.{Lane}
use statefuse.Materialize.Lifecycle.{
  FoldInput, Fold, fold_lane, put_option, fold_lanes, judge, settle, settle_lanes, lanes_of,
  open_by_default, settle_conflict, settle_conflicts, all_lanes, no_fold, fold_lifecycle,
}
use statefuse.Materialize.Lifecycle.Lanes.{contains-lanes_of, not_contains-lanes_of}
use statefuse.Materialize.Lifecycle.Replace.{pop_lanes, drop_ref}

module _ {V : Type 0} where
  pop_lanes-IsDict : (lanes : List Lane) (d : Dict Lane V) → IsDict d → IsDict (pop_lanes lanes d)
  unfolding pop_lanes
  pop_lanes-IsDict [] d h = h
  pop_lanes-IsDict (lane ∷ lanes) d h = pop_lanes-IsDict lanes (pop lane d) (pop-IsDict lane d h)

  get-pop_lanes :
      (at : Lane) (lanes : List Lane) (d : Dict Lane V)
      → IsDict d
      → get at (pop_lanes lanes d) ≡ (if contains at lanes then none else get at d)
  unfolding pop_lanes contains
  get-pop_lanes at [] d h = refl
  get-pop_lanes at (lane ∷ lanes) d h =
      get-pop_lanes at lanes (pop lane d) (pop-IsDict lane d h)
      ∙ ap (λ x. if contains at lanes then none else x) (get-pop lane at d h)
      ∙ go (lane == at) (contains at lanes)
    where
      go :
          (b c : Bool)
          → (if c then none else if b then none else get at d) ≡ (if b || c then none else get at d)
      go true true = refl
      go true false = refl
      go false true = refl
      go false false = refl

  pub drop_ref-IsDict : (ref : String) (d : Dict Lane V) → IsDict d → IsDict (drop_ref ref d)
  unfolding drop_ref
  drop_ref-IsDict ref d h = pop_lanes-IsDict (lanes_of ref (keys d)) d h

  pub get-drop_ref :
      (ref : String) (at : Lane) (d : Dict Lane V)
      → IsDict d
      → get at (drop_ref ref d) ≡ (if at.0 == ref then none else get at d)
  unfolding drop_ref
  get-drop_ref ref at d h =
      get-pop_lanes at (lanes_of ref (keys d)) d h ∙ elim (Bool-cases (at.0 == ref)) [
        | inl own ↦
            rw (own, contains-lanes_of ref at (keys d) own, contains-keys at d) (go (get at d))
        | inr other ↦ rw (other, not_contains-lanes_of ref at (keys d) other) refl
      ]
    where
      go : (o : Option V) → (if is_some o then none else o) ≡ none
      go none = refl
      go (some v) = refl

  put_option-IsDict :
      (lane : Lane) (v : Option V) (d : Dict Lane V) → IsDict d → IsDict (put_option lane v d)
  unfolding put_option
  put_option-IsDict lane none d h = h
  put_option-IsDict lane (some v) d h = put-IsDict lane v d h

-- Each of the three dictionaries holds a lane once.
pub record IsFold (f : Fold) : Type 0 where
  pub active : IsDict f.active
  pub effective : IsDict f.effective
  pub statuses : IsDict f.statuses

module _ (h : Host) where
  settle-IsFold : (c : ConflictSet) (f : Fold) (lane : Lane) → IsFold f → IsFold (settle h c f lane)
  unfolding settle
  settle-IsFold c f lane v = go (get lane f.active)
    where
      in_force :
          (r : ResolutionRecord) (b : Bool)
          → IsDict (if b then put lane r f.effective else f.effective)
      in_force r true = put-IsDict lane r f.effective v.effective
      in_force r false = v.effective

      go :
          (o : Option ResolutionRecord)
          → IsFold (elim o [
            | none ↦ f
            | some r ↦ record f {
              effective = if (judge h c r).1 then put lane r f.effective else f.effective;
              statuses = put lane (judge h c r).0 f.statuses;
            }
          ])
      go none = v
      go (some r) = record {
        active = v.active;
        effective = in_force r (judge h c r).1;
        statuses = put-IsDict lane (judge h c r).0 f.statuses v.statuses;
      }

  settle_lanes-IsFold :
      (c : ConflictSet) (f : Fold) (lanes : List Lane)
      → IsFold f
      → IsFold (settle_lanes h c f lanes)
  unfolding settle_lanes
  settle_lanes-IsFold c f [] v = v
  settle_lanes-IsFold c f (lane ∷ lanes) v =
      settle_lanes-IsFold c (settle h c f lane) lanes (settle-IsFold c f lane v)

  open-IsFold : (ref : String) (f : Fold) → IsFold f → IsFold (open_by_default ref f)
  unfolding open_by_default
  open-IsFold ref f v = go (is_some (get (ref, none) f.statuses))
    where
      go :
          (b : Bool)
          → IsFold (if b then f else record f { statuses = put (ref, none) "open" f.statuses })
      go true = v
      go false = record {
        active = v.active;
        effective = v.effective;
        statuses = put-IsDict (ref, none) "open" f.statuses v.statuses;
      }

  settle_conflict-IsFold :
      (lanes : List Lane) (f : Fold) (ref : String) (c : ConflictSet)
      → IsFold f
      → IsFold (settle_conflict h lanes f ref c)
  unfolding settle_conflict
  settle_conflict-IsFold lanes f ref c v =
      settle_lanes-IsFold c (open_by_default ref f)
        (sorted (unique ((ref, none) ∷ lanes_of ref lanes))) (open-IsFold ref f v)

  settle_conflicts-IsFold :
      (lanes : List Lane) (conflicts : Dict String ConflictSet) (f : Fold) (refs : List String)
      → IsFold f
      → IsFold (settle_conflicts h lanes conflicts f refs)
  unfolding settle_conflicts
  settle_conflicts-IsFold lanes conflicts f [] v = v
  settle_conflicts-IsFold lanes conflicts f (ref ∷ refs) v =
      settle_conflicts-IsFold lanes conflicts
        (elim (get ref conflicts) [ none ↦ f | some c ↦ settle_conflict h lanes f ref c ]) refs
        (go (get ref conflicts))
    where
      go :
          (o : Option ConflictSet)
          → IsFold (elim o [ none ↦ f | some c ↦ settle_conflict h lanes f ref c ])
      go none = v
      go (some c) = settle_conflict-IsFold lanes f ref c v

  fold_lanes-IsFold :
      (i : FoldInput) (f : Fold) (lanes : List Lane) {g : Fold}
      → IsFold f
      → fold_lanes h i f lanes ≡ ok g
      → IsFold g
  unfolding fold_lanes
  fold_lanes-IsFold i f [] v done = subst IsFold (ok-injective done) v
  fold_lanes-IsFold i f (lane ∷ lanes) v done =
      let (s, _, rest) = >>=-eq-ok (fold_lane h i lane) _ done in
      fold_lanes-IsFold i
        (record f {
          active = put_option lane s.active f.active;
          statuses = put_option lane s.status f.statuses;
        })
        lanes
        (record {
          active = put_option-IsDict lane s.active f.active v.active;
          effective = v.effective;
          statuses = put_option-IsDict lane s.status f.statuses v.statuses;
        })
        rest

  pub fold_lifecycle-IsFold : (i : FoldInput) {f : Fold} → fold_lifecycle h i ≡ ok f → IsFold f
  unfolding fold_lifecycle
  fold_lifecycle-IsFold i done =
      let lanes = sorted (all_lanes i) in
      let refs = sorted (keys i.conflicts_by_ref) in
      let (g, folded, rest) =
        >>=-eq-ok (fold_lanes h i no_fold lanes)
          (λ g. ok (settle_conflicts h (all_lanes i) i.conflicts_by_ref g refs)) done in
      subst IsFold (ok-injective rest) (
        settle_conflicts-IsFold (all_lanes i) i.conflicts_by_ref g refs (
          fold_lanes-IsFold i no_fold lanes (record { active = tt; effective = tt; statuses = tt })
            folded))
