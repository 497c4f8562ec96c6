-- ===== src/Materialize/Incremental/Full.antt =====
-- The incremental materialisation against the full one: the claims that stand, and the active ones.
use statefuse.Base.{
  String, ◌≡◌, refl, sym, ◌∙◌, ap, ap₂, Bool, true, ◌&&◌, ◌||◌, ◌↔◌, ◌⊎◌, Option-cases, none, some,
  List, [], ◌∷◌, ◌++◌, arith, inl, inr, In, any, is_some, Bool-cases,
}
use statefuse.Base.Dict.{get}
use statefuse.Base.Order.{string_key, ◌==◌}
use statefuse.Base.Sorted.{contains}
use statefuse.Base.Groups.{group}
use statefuse.Result.{ok}
use statefuse.Host.{Host}
use statefuse.Model.ClaimKey.{ClaimKey, claim_key_key}
use statefuse.Model.Claim.{Claim}
use statefuse.Ops.{
  Op, Body, source_added, evidence_added, claim_added, claim_retracted, decision_added,
  derivation_added, resolution_added, conflict_lifecycle_event_added,
}
use statefuse.OpLog.{OpLog, iter_ops}
use statefuse.Conflict.{PredicateRegistry, claim_ref_for_claim}
use statefuse.Conflict.Detect.{Detector}
use statefuse.Materialize.Facts.{Facts, no_facts}
use statefuse.Materialize.Facts.Claims.{retracts_body, retracts_ref_body}
use statefuse.Materialize.Facts.Log.{AddedBy, fold_ops-Collected, adds_retracted, is_withdrawn}
use statefuse.Materialize.Facts.Filed.{IsFiled, no_facts-IsFiled, fold_ops-IsFiled}
use statefuse.Materialize.Facts.Withdrawn.{any-eq, inactive_collected}
use statefuse.Materialize.State.{MemoryState, materialize}
use statefuse.Materialize.State.ActiveClaims.{materialize-MadeFrom, materialize_active}
use statefuse.Materialize.Incremental.{Working}
use statefuse.Materialize.Incremental.Rounds.{apply_ops}
use statefuse.Materialize.Incremental.Consistent.{IsConsistent}
use statefuse.Materialize.Incremental.Preserved.{apply_ops-IsConsistent}
use statefuse.Materialize.Incremental.Start.{working_of}
use statefuse.Materialize.Incremental.Start.Consistent.{
  unscoped, claim_applies_unscoped, working_of-IsConsistent, working_of-Seen,
}
use statefuse.Materialize.Incremental.Log.{OneClaim, Seen, Seen-filed, In-any, apply_ops-Seen}

-- The same operations, in whatever order and however often.
abbrev pub SameOps : List Op → List Op → Type 0
SameOps l m = (op : Op) → In op l ↔ In op m

any-In : (p : Op → Bool) (l : List Op) → any p l ≡ true → (x : Op) × In x l × (p x ≡ true)
any-In p [] h = cc h
any-In p (y ∷ l) h = elim (Bool-cases (p y)) [
  | inl here ↦ (y, inl refl, here)
  | inr other ↦
      let (x, there, holds) = any-In p l (ap (λ b. b || any p l) (sym other) ∙ h) in
      (x, inr there, holds)
]

any-SameOps : (p : Op → Bool) (l m : List Op) → SameOps l m → any p l ≡ any p m
any-SameOps p l m same =
    both (any p l) (any p m) (moved l m (λ x. (same x).0)) (moved m l (λ x. (same x).1))
  where
    moved : (l m : List Op) → ((x : Op) → In x l → In x m) → any p l ≡ true → any p m ≡ true
    moved l m to h = let (x, there, holds) = any-In p l h in In-any p x m (to x there) holds

    both : (a b : Bool) → (a ≡ true → b ≡ true) → (b ≡ true → a ≡ true) → a ≡ b
    both a b f g = ground (arith, f, g)

AddedBy-SameOps : (c : Claim) (l m : List Op) → SameOps l m → AddedBy c l → AddedBy c m
AddedBy-SameOps c l m same (op, there, adds) = (op, (same op).0 there, adds)

module _ (h : Host) (r : PredicateRegistry) where
  is_withdrawn-SameOps :
      (l m : List Op) (id : String) → SameOps l m → is_withdrawn h r l id ≡ is_withdrawn h r m id
  is_withdrawn-SameOps l m id same =
      ap₂ (λ a b. a || b) (any-SameOps (λ op. retracts_body op.body id) l m same)
        (any-eq _ _ l (λ op. one op.body)
          ∙ any-SameOps (λ op. adds_retracted h r m id op.body) l m same)
    where
      one : (b : Body) → adds_retracted h r l id b ≡ adds_retracted h r m id b
      one (claim_added c) =
          ap (λ x. c.claim_id == id && x)
            (any-SameOps (λ op. retracts_ref_body op.body (claim_ref_for_claim h r c)) l m same)
      one (source_added x) = refl
      one (evidence_added x) = refl
      one (claim_retracted x) = refl
      one (decision_added x) = refl
      one (derivation_added x) = refl
      one (resolution_added x) = refl
      one (conflict_lifecycle_event_added x) = refl

  -- The stored claims are those that the operations add.
  stored_iff :
      (f : Facts) (ops : List Op) (c : Claim)
      → Seen h r ops f
      → IsFiled f
      → OneClaim ops
      → (get c.claim_id f.claims_by_id ≡ some c) ↔ AddedBy c ops
  unfolding get
  stored_iff f ops c seen filed one = (
    λ there. elim (seen.claims c.claim_id c there) [ inl p ↦ p.0 | inr e ↦ cc e ],
    λ added. elim (Option-cases (get c.claim_id f.claims_by_id)) [
      | inl absent ↦ cc (
          ap is_some (sym absent)
          ∙ filed (claim_ref_for_claim h r c) c.claim_id (Seen-filed h r f ops c seen added))
      | inr (x, there) ↦ there ∙ ap some (same x added (seen.claims c.claim_id x there))
    ],
  )
    where
      same :
          (x : Claim)
          → AddedBy c ops
          → (AddedBy x ops × (x.claim_id ≡ c.claim_id)) ⊎ (none ≡ some x)
          → x ≡ c
      same x added (inl p) = one x c p.0 added p.1
      same x added (inr e) = cc e

  module _ (detectors : List Detector) where
    -- If a log is materialised for no instant and no context, the incremental loop then takes in
    -- operations, the log of all these operations is materialised too, and no identifier names two
    -- claims, then the active claims of each key are the same after the loop and in the state of
    -- the full log.
    pub apply_ops-materialize :
        (log full : OpLog) (ops : List Op) (c : Claim) (key : ClaimKey) {s t : MemoryState}
        {w : Working}
        → materialize h r detectors unscoped log ≡ ok s
        → apply_ops h r (working_of s) ops ≡ ok w
        → materialize h r detectors unscoped full ≡ ok t
        → SameOps (iter_ops full) (iter_ops log ++ ops)
        → OneClaim (iter_ops log ++ ops)
        → In c (group key w.active) ↔ In c (group key t.active_claims)
    apply_ops-materialize log full ops c key {s} {t} {w} first applied second same one = (
      λ there.
          let p = (after.active c key).0 there in
          (materialize_active h r detectors unscoped full c key second).1
            (stored.0 p.0, p.1, sym withdrawn ∙ p.2, claim_applies_unscoped h c),
      λ there.
          let p = (materialize_active h r detectors unscoped full c key second).0 there in
          (after.active c key).1 (stored.1 p.0, p.1, withdrawn ∙ p.2),
    )
      where
        start : IsConsistent (working_of s)
        start = working_of-IsConsistent h r detectors log first

        after : IsConsistent w
        after = apply_ops-IsConsistent h r (working_of s) ops start applied

        seen : Seen h r (iter_ops log ++ ops) w.facts
        seen =
            apply_ops-Seen h r (working_of s) (iter_ops log) ops start
              (working_of-Seen h r detectors log first) one applied

        withdrawn : contains c.claim_id w.inactive ≡ is_withdrawn h r (iter_ops full) c.claim_id
        withdrawn =
            after.inactive c.claim_id
            ∙ inactive_collected h r w.facts (iter_ops log ++ ops) seen c.claim_id
            ∙ sym (is_withdrawn-SameOps (iter_ops full) (iter_ops log ++ ops) c.claim_id same)

        one_full : OneClaim (iter_ops full)
        one_full a b p q e =
            one a b (AddedBy-SameOps a (iter_ops full) (iter_ops log ++ ops) same p)
              (AddedBy-SameOps b (iter_ops full) (iter_ops log ++ ops) same q) e

        stored :
            (get c.claim_id w.facts.claims_by_id ≡ some c)
            ↔ (get c.claim_id t.claims_by_id ≡ some c)
        stored =
            let m = materialize-MadeFrom h r detectors unscoped full second in
            let mine = stored_iff w.facts (iter_ops log ++ ops) c seen after.filed one in
            let its =
              stored_iff m.facts (iter_ops full) c
                (fold_ops-Collected h r no_facts (iter_ops full) m.folded)
                (fold_ops-IsFiled h r no_facts (iter_ops full) no_facts-IsFiled m.folded)
                one_full in
            (
              λ there.
                  ap (get c.claim_id) m.claims
                  ∙ its.1 (
                      AddedBy-SameOps c (iter_ops log ++ ops) (iter_ops full)
                        (λ op. ((same op).1, (same op).0)) (mine.0 there)),
              λ there. mine.1 (
                  AddedBy-SameOps c (iter_ops full) (iter_ops log ++ ops) same
                    (its.0 (ap (get c.claim_id) (sym m.claims) ∙ there))),
            )
