-- ===== src/Materialize/Facts/Filed.antt =====
-- What the first loop of `materialize` files under a reference is a stored claim.
use statefuse.Base.{
  String, ◌≡◌, refl, sym, ◌∙◌, ap, subst, Bool, true, false, ◌&&◌, ◌||◌, some, List, [], ◌∷◌,
  is_some, if◌then◌else◌, arith,
}
use statefuse.Base.Dict.{get, put, get-put}
use statefuse.Base.Order.{string_key, ◌==◌}
use statefuse.Base.Sorted.{contains}
use statefuse.Base.Groups.{group, contains-add_to}
use statefuse.Result.{Result, ok, ◌>>=◌, >>=-eq-ok, ok-injective}
use statefuse.Host.{Host}
use statefuse.Model.Claim.{Claim}
use statefuse.Ops.{
  Op, Body, source_added, evidence_added, claim_added, claim_retracted, decision_added,
  derivation_added, resolution_added, conflict_lifecycle_event_added,
}
use statefuse.Conflict.{PredicateRegistry, claim_ref_for_claim}
use statefuse.Conflict.Detect.{claim_eq}
use statefuse.Materialize.Facts.{Facts, no_facts, keep, with_claim, keep_claim, fold_body, fold_ops}
use statefuse.Materialize.Facts.Claims.{keep_claims}

abbrev pub IsFiled : Facts → Type 0
IsFiled f =
    (ref id : String)
    → contains id (group ref f.claim_ids_by_ref) ≡ true
    → is_some (get id f.claims_by_id) ≡ true

pub no_facts-IsFiled : IsFiled no_facts
unfolding group get contains
no_facts-IsFiled ref id there = ground (arith, there)

module _ (h : Host) (r : PredicateRegistry) where
  put_claim-IsFiled :
      (f : Facts) (c : Claim)
      → IsFiled f
      → IsFiled (with_claim h r f c (put c.claim_id c f.claims_by_id))
  put_claim-IsFiled f c before ref id there =
      ap is_some (get-put c.claim_id id c f.claims_by_id)
      ∙ go (claim_ref_for_claim h r c == ref) (c.claim_id == id) (before ref id) (
          sym (contains-add_to (claim_ref_for_claim h r c) ref c.claim_id id f.claim_ids_by_ref)
          ∙ there)
    where
      go :
          (x : Bool) {y : Bool} (b : Bool)
          → (y ≡ true → is_some (get id f.claims_by_id) ≡ true)
          → ((x && b) || y) ≡ true
          → is_some (if b then some c else get id f.claims_by_id) ≡ true
      go x true old e = refl
      go x {y} false old e = old (drop x y e)
        where
          drop : (x y : Bool) → ((x && false) || y) ≡ true → y ≡ true
          drop x y e = ground (arith, e)

  -- A round that leaves claims alone.
  each :
      {V : Type 0} (f : Facts) (m : Result V) (next : V → Facts) {g : Facts}
      → ((v : V) → IsFiled (next v))
      → (m >>= λ v. ok (next v)) ≡ ok g
      → IsFiled g
  each f m next all done =
      let (v, _, made) = >>=-eq-ok m (λ v. ok (next v)) done in
      subst IsFiled (ok-injective made) (all v)

  fold_body-IsFiled :
      (f : Facts) (op : Op) (b : Body) {g : Facts}
      → IsFiled f
      → fold_body h r f op b ≡ ok g
      → IsFiled g
  unfolding fold_body keep_claim
  fold_body-IsFiled f op (claim_added c) before done =
      let (claims, kept, made) =
        >>=-eq-ok (keep claim_eq "claim_id" c.claim_id c f.claims_by_id) _ done in
      subst IsFiled
        (ap (with_claim h r f c) (keep_claims h r claim_eq "claim_id" c f.claims_by_id kept)
          ∙ ok-injective made)
        (put_claim-IsFiled f c before)
  fold_body-IsFiled f op (claim_retracted x) before done = subst IsFiled (ok-injective done) before
  fold_body-IsFiled f op (source_added x) before done = each f _ _ (λ v. before) done
  fold_body-IsFiled f op (evidence_added x) before done = each f _ _ (λ v. before) done
  fold_body-IsFiled f op (decision_added x) before done = each f _ _ (λ v. before) done
  fold_body-IsFiled f op (derivation_added x) before done = each f _ _ (λ v. before) done
  fold_body-IsFiled f op (resolution_added x) before done = each f _ _ (λ v. before) done
  fold_body-IsFiled f op (conflict_lifecycle_event_added x) before done =
      each f _ _ (λ v. before) done

  pub fold_ops-IsFiled :
      (f : Facts) (ops : List Op) {g : Facts} → IsFiled f → fold_ops h r f ops ≡ ok g → IsFiled g
  unfolding fold_ops
  fold_ops-IsFiled f [] before done = subst IsFiled (ok-injective done) before
  fold_ops-IsFiled f (op ∷ ops) before done =
      let (m, first, rest) = >>=-eq-ok (fold_body h r f op op.body) _ done in
      fold_ops-IsFiled m ops (fold_body-IsFiled f op op.body before first) rest
