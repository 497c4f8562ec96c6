-- ===== src/Materialize/Find/Reported.antt =====
-- What `find_conflicts` reports of a materialised state.
use statefuse.Base.{
  String, ◌≡◌, refl, sym, ◌∙◌, ap, Bool, true, false, ◌&&◌, Option, none, some, List, [], ◌∷◌,
  arith, inl, inr, In, is_some, eq_iff, if◌then◌else◌,
}
use statefuse.Base.Dict.{Dict, get, put, get-put, key_refl}
use statefuse.Base.Order.{string_key, pair_key, option_key, ◌==◌}
use statefuse.Base.Elements.{In-sorted}
use statefuse.Result.{ok}
use statefuse.Host.{Host}
use statefuse.OpLog.{OpLog}
use statefuse.Conflict.{PredicateRegistry}
use statefuse.Conflict.Detect.{Detector}
use statefuse.Conflict.Identity.{ConflictSet}
use statefuse.Materialize.Active.{Scope}
use statefuse.Materialize.History.{Lane}
use statefuse.Materialize.Indexes.{conflicts_under}
use statefuse.Materialize.State.{MemoryState, materialize}
use statefuse.Materialize.State.ActiveClaims.{materialize-MadeFrom}
use statefuse.Materialize.Find.{
  Query, lane_for, status_in, if_asked, is_selected, matches, matching, find_conflicts,
}
use statefuse.Materialize.Find.Resolved.{fold_lifecycle-resolved}

module _ (name : ConflictSet → String) where
  under_keeps :
      (k : String) (d : Dict String ConflictSet) (l : List ConflictSet)
      → is_some (get k d) ≡ true
      → is_some (get k (conflicts_under name d l)) ≡ true
  unfolding conflicts_under
  under_keeps k d [] there = there
  under_keeps k d (c ∷ l) there =
      under_keeps k (put (name c) c d) l (ground (arith, there, get-put (name c) k c d))

  has-conflicts_under :
      (c : ConflictSet) (d : Dict String ConflictSet) (l : List ConflictSet)
      → In c l
      → is_some (get (name c) (conflicts_under name d l)) ≡ true
  unfolding conflicts_under
  has-conflicts_under c d [] there = absurd there
  has-conflicts_under c d (x ∷ l) (inl e) = under_keeps (name c) (put (name x) x d) l (
      ap is_some (get-put (name x) (name c) x d)
      ∙ ap (λ b. is_some (if b then some x else get (name c) d))
          (ap (λ y. name x == name y) e ∙ key_refl (name x)))
  has-conflicts_under c d (x ∷ l) (inr later) = has-conflicts_under c (put (name x) x d) l later

In-matching :
    (s : MemoryState) (q : Query) (c : ConflictSet) (l : List ConflictSet)
    → In c (matching s q l)
    → In c l × (matches s q c ≡ true)
unfolding matching
In-matching s q c [] there = absurd there
In-matching s q c (x ∷ l) there = go (matches s q x) refl (In-matching s q c l) there
  where
    go :
        (b : Bool)
        → matches s q x ≡ b
        → (In c (matching s q l) → In c l × (matches s q c ≡ true))
        → In c (if b then x ∷ matching s q l else matching s q l)
        → In c (x ∷ l) × (matches s q c ≡ true)
    go true passes ih (inl e) = (inl e, ap (matches s q) e ∙ passes)
    go true passes ih (inr later) = let p = ih later in (inr p.0, p.1)
    go false fails ih later = let p = ih later in (inr p.0, p.1)

lane_for-ref :
    (s : MemoryState) (scope : Option String) (c : ConflictSet)
    → (lane_for s scope c).0 ≡ c.conflict_ref
unfolding lane_for
lane_for-ref s none c = refl
lane_for-ref s (some scope) c = go (is_some (get (c.conflict_ref, some scope) s.lifecycle.statuses))
  where
    lane : Bool → Lane
    lane b = if b then (c.conflict_ref, some scope) else (c.conflict_ref, none)

    go : (b : Bool) → (lane b).0 ≡ c.conflict_ref
    go true = refl
    go false = refl

matches-status :
    (s : MemoryState) (q : Query) (c : ConflictSet)
    → q.status ≡ some "resolved"
    → matches s q c ≡ true
    → get (lane_for s q.scope c) s.lifecycle.statuses ≡ some "resolved"
unfolding matches
matches-status s q c asked passes = status_of (get (lane_for s q.scope c) s.lifecycle.statuses) (
    right (is_selected s q c) _ (
      ap (λ o. is_selected s q c && if_asked o (λ x. status_in s (lane_for s q.scope c) == x))
        (sym asked)
      ∙ passes))
  where
    right : (a b : Bool) → (a && b) ≡ true → b ≡ true
    right a b e = ground (arith, e)

    status_of :
        (o : Option String)
        → ((elim o as (λ x. String) [ none ↦ "open" | some status ↦ status ]) == "resolved") ≡ true
        → o ≡ some "resolved"
    status_of none e = cc e
    status_of (some status) e = ap some ((eq_iff status "resolved").0 e)

-- If a log is materialised and `find_conflicts` is asked for resolved conflicts, then each one that
-- it reports is a conflict of the state, and in its lane, that of the asked scope or else that of no
-- scope, a resolution is in force.
pub find_conflicts-resolved :
    (h : Host) (r : PredicateRegistry) (detectors : List Detector) (scope : Scope) (log : OpLog)
    (q : Query) (c : ConflictSet) {s : MemoryState}
    → materialize h r detectors scope log ≡ ok s
    → q.status ≡ some "resolved"
    → In c (find_conflicts s q)
    → In c s.conflicts × (is_some (get (lane_for s q.scope c) s.lifecycle.effective) ≡ true)
unfolding find_conflicts
find_conflicts-resolved h r detectors scope log q c {s} done asked there =
    let m = materialize-MadeFrom h r detectors scope log done in
    let (inside, passes) =
      In-matching s q c s.conflicts
        ((In-sorted (λ (x : ConflictSet). x.conflict_id) c (matching s q s.conflicts)).0 there) in
    (
      inside,
      fold_lifecycle-resolved h m.input (lane_for s q.scope c) m.lifecycle
          (ap (λ ref. is_some (get ref m.input.conflicts_by_ref)) (lane_for-ref s q.scope c)
            ∙ ap (λ d. is_some (get c.conflict_ref d)) m.by_ref
            ∙ has-conflicts_under (λ x. x.conflict_ref) c [] s.conflicts inside)
          (matches-status s q c asked passes),
    )
