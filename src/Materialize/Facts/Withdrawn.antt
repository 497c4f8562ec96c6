-- ===== src/Materialize/Facts/Withdrawn.antt =====
-- `inactive_claim_ids` holds the claims that the operations withdraw.
use statefuse.Base.{
  String, ◌≡◌, refl, sym, ◌∙◌, ap, ap₂, Bool, true, false, ◌&&◌, ◌||◌, List, [], ◌∷◌, arith, any,
  eq_iff,
}
use statefuse.Base.Dict.{Dict, get, keys}
use statefuse.Base.Order.{string_key, ◌==◌}
use statefuse.Base.Sorted.{contains, contains-keys}
use statefuse.Base.Groups.{group, contains-append}
use statefuse.Result.{ok}
use statefuse.Host.{Host}
use statefuse.Ops.{
  Op, Body, source_added, evidence_added, claim_added, claim_retracted, decision_added,
  derivation_added, resolution_added, conflict_lifecycle_event_added,
}
use statefuse.Conflict.{PredicateRegistry, claim_ref_for_claim}
use statefuse.Materialize.Facts.{Facts, no_facts, fold_ops}
use statefuse.Materialize.Facts.Claims.{retracts_body, retracts_ref_body, adds_body}
use statefuse.Materialize.Facts.Log.{Collected, fold_ops-Collected, adds_retracted, is_withdrawn}
use statefuse.Materialize.Active.{members_of, inactive_claim_ids}

or_false : (b : Bool) → (b || false) ≡ b
or_false true = refl
or_false false = refl

module _ {A : Type 0} where
  pub any-eq : (p q : A → Bool) (l : List A) → ((x : A) → p x ≡ q x) → any p l ≡ any q l
  any-eq p q [] same = refl
  any-eq p q (x ∷ l) same = ap₂ (λ a b. a || b) (same x) (any-eq p q l same)

  any-false : (l : List A) → any (λ x. false) l ≡ false
  any-false [] = refl
  any-false (x ∷ l) = any-false l

  any_or : (p q : A → Bool) (l : List A) → any (λ x. p x || q x) l ≡ any p l || any q l
  any_or p q [] = refl
  any_or p q (x ∷ l) =
      ap (λ b. (p x || q x) || b) (any_or p q l) ∙ go (p x) (q x) (any p l) (any q l)
    where
      go : (a b c d : Bool) → ((a || b) || (c || d)) ≡ ((a || c) || (b || d))
      go true b c d = refl
      go false true true d = refl
      go false true false d = refl
      go false false c d = refl

module _ {A B : Type 0} (q : A → B → Bool) where
  any_swap :
      (xs : List A) (ys : List B) → any (λ x. any (q x) ys) xs ≡ any (λ y. any (λ x. q x y) xs) ys
  any_swap [] ys = sym (any-false ys)
  any_swap (x ∷ xs) ys =
      ap (λ b. any (q x) ys || b) (any_swap xs ys)
      ∙ sym (any_or (q x) (λ y. any (λ x. q x y) xs) ys)

pub contains-members_of :
    (id : String) (d : Dict String (List String)) (refs : List String)
    → contains id (members_of d refs) ≡ any (λ ref. contains id (group ref d)) refs
unfolding members_of contains
contains-members_of id d [] = refl
contains-members_of id d (ref ∷ refs) =
    contains-append id (group ref d) (members_of d refs)
    ∙ ap (λ b. contains id (group ref d) || b) (contains-members_of id d refs)

any-contains :
    (a : String) (b : Bool) (l : List String) → any (λ x. a == x && b) l ≡ b && contains a l
unfolding contains
any-contains a b [] = go b
  where
    go : (b : Bool) → false ≡ (b && false)
    go true = refl
    go false = refl
any-contains a b (x ∷ l) =
    ap (λ c. (a == x && b) || c) (any-contains a b l) ∙ ground (arith, eq_iff a x, eq_iff x a)

module _ (h : Host) (r : PredicateRegistry) (f : Facts) (ops : List Op)
    (all : Collected h r no_facts ops f) where
  retracted_refs :
      (ref : String)
      → contains ref (keys f.retractions_by_target_ref)
        ≡ any (λ op. retracts_ref_body op.body ref) ops
  unfolding get
  retracted_refs ref =
      contains-keys ref f.retractions_by_target_ref ∙ all.by_target_ref ref ∙ or_false _

  added_under :
      (ref id : String)
      → contains id (group ref f.claim_ids_by_ref) ≡ any (λ op. adds_body h r ref id op.body) ops
  unfolding group get contains
  added_under ref id = all.refs ref id ∙ or_false _

  retracted_ids :
      (id : String)
      → contains id (keys f.retractions_by_target) ≡ any (λ op. retracts_body op.body id) ops
  unfolding get
  retracted_ids id = contains-keys id f.retractions_by_target ∙ all.by_target id ∙ or_false _

  -- One operation, against all the references that are retracted.
  one_operation :
      (id : String) (b : Body)
      → any (λ ref. adds_body h r ref id b) (keys f.retractions_by_target_ref)
        ≡ adds_retracted h r ops id b
  one_operation id (claim_added c) =
      any-contains (claim_ref_for_claim h r c) (c.claim_id == id) (keys f.retractions_by_target_ref)
      ∙ ap (λ b. c.claim_id == id && b) (retracted_refs (claim_ref_for_claim h r c))
  one_operation id (source_added x) = any-false (keys f.retractions_by_target_ref)
  one_operation id (evidence_added x) = any-false (keys f.retractions_by_target_ref)
  one_operation id (claim_retracted x) = any-false (keys f.retractions_by_target_ref)
  one_operation id (decision_added x) = any-false (keys f.retractions_by_target_ref)
  one_operation id (derivation_added x) = any-false (keys f.retractions_by_target_ref)
  one_operation id (resolution_added x) = any-false (keys f.retractions_by_target_ref)
  one_operation id (conflict_lifecycle_event_added x) = any-false (keys f.retractions_by_target_ref)

  pub inactive_collected :
      (id : String) → contains id (inactive_claim_ids f) ≡ is_withdrawn h r ops id
  unfolding inactive_claim_ids
  inactive_collected id =
      contains-append id (keys f.retractions_by_target)
        (members_of f.claim_ids_by_ref (keys f.retractions_by_target_ref))
      ∙ ap₂ (λ a b. a || b) (retracted_ids id)
          (contains-members_of id f.claim_ids_by_ref (keys f.retractions_by_target_ref)
            ∙ any-eq _ _ (keys f.retractions_by_target_ref) (λ ref. added_under ref id)
            ∙ any_swap (λ ref (op : Op). adds_body h r ref id op.body)
                (keys f.retractions_by_target_ref) ops
            ∙ any-eq _ _ ops (λ op. one_operation id op.body))

-- If the operations are collected without an error, then the inactive claims are exactly those that
-- an operation retracts by their identifier, or that an operation adds under a reference that an
-- operation retracts. The order of the operations makes no difference.
pub inactive-withdrawn :
    (h : Host) (r : PredicateRegistry) (ops : List Op) {f : Facts}
    → fold_ops h r no_facts ops ≡ ok f
    → (id : String) → contains id (inactive_claim_ids f) ≡ is_withdrawn h r ops id
inactive-withdrawn h r ops {f} done =
    inactive_collected h r f ops (fold_ops-Collected h r no_facts ops done)
