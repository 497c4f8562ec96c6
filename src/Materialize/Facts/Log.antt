-- ===== src/Materialize/Facts/Log.antt =====
-- The facts of a list of operations, and the claims that it withdraws.
use statefuse.Base.{
  String, ◌≡◌, refl, ◌∙◌, ap, subst, Bool, true, false, ◌&&◌, ◌||◌, some, List, [], ◌∷◌, inl, inr,
  ◌⊎◌, In, any, is_some,
}
use statefuse.Base.Dict.{IsDict, get}
use statefuse.Base.Order.{string_key, ◌==◌}
use statefuse.Base.Sorted.{contains}
use statefuse.Base.Groups.{group}
use statefuse.Result.{ok, >>=-eq-ok, ok-injective}
use statefuse.Host.{Host}
use statefuse.Model.Claim.{Claim}
use statefuse.Ops.{Op, Body, claim_added}
use statefuse.Conflict.{PredicateRegistry, claim_ref_for_claim}
use statefuse.Materialize.Facts.{Facts, fold_body, fold_ops}
use statefuse.Materialize.Facts.Claims.{
  retracts_body, retracts_ref_body, adds_body, fold_body-Moves,
}

-- The operation that added a stored claim.
abbrev pub AddedBy : Claim → List Op → Type 0
AddedBy c ops = (op : Op) × In op ops × (op.body ≡ claim_added c)

module _ (h : Host) (r : PredicateRegistry) where
  pub record Collected (f : Facts) (ops : List Op) (g : Facts) : Type 0 where
    pub by_target :
        (id : String)
        → is_some (get id g.retractions_by_target)
          ≡ any (λ op. retracts_body op.body id) ops || is_some (get id f.retractions_by_target)
    pub by_target_ref :
        (ref : String)
        → is_some (get ref g.retractions_by_target_ref)
          ≡ any (λ op. retracts_ref_body op.body ref) ops
            || is_some (get ref f.retractions_by_target_ref)
    pub refs :
        (ref id : String)
        → contains id (group ref g.claim_ids_by_ref)
          ≡ any (λ op. adds_body h r ref id op.body) ops
            || contains id (group ref f.claim_ids_by_ref)
    pub claims :
        (id : String) (c : Claim)
        → get id g.claims_by_id ≡ some c
        → (AddedBy c ops × (c.claim_id ≡ id)) ⊎ (get id f.claims_by_id ≡ some c)
    pub is_dict : IsDict f.claims_by_id → IsDict g.claims_by_id

  shuffle : (a b c : Bool) {d e : Bool} → e ≡ b || d → d ≡ a || c → e ≡ (a || b) || c
  shuffle a b c p q = p ∙ ap (λ x. b || x) q ∙ go a b c
    where
      go : (a b c : Bool) → (b || (a || c)) ≡ ((a || b) || c)
      go true true c = refl
      go true false c = refl
      go false true c = refl
      go false false c = refl

  pub fold_ops-Collected :
      (f : Facts) (ops : List Op) {g : Facts} → fold_ops h r f ops ≡ ok g → Collected f ops g
  unfolding fold_ops
  fold_ops-Collected f [] done = subst (Collected f []) (ok-injective done) (record {
    by_target = λ id. refl;
    by_target_ref = λ ref. refl;
    refs = λ ref id. refl;
    claims = λ id c e. inr e;
    is_dict = λ d. d;
  })
  fold_ops-Collected f (op ∷ ops) {g} done =
      let (m, first, rest) = >>=-eq-ok (fold_body h r f op op.body) _ done in
      let one = fold_body-Moves h r f op op.body first in
      let ih = fold_ops-Collected m ops rest in
      record {
        by_target = λ id.
            shuffle (retracts_body op.body id) (any (λ x. retracts_body x.body id) ops)
              (is_some (get id f.retractions_by_target)) (ih.by_target id) (one.by_target id);
        by_target_ref = λ ref.
            shuffle (retracts_ref_body op.body ref) (any (λ x. retracts_ref_body x.body ref) ops)
              (is_some (get ref f.retractions_by_target_ref)) (ih.by_target_ref ref)
              (one.by_target_ref ref);
        refs = λ ref id.
            shuffle (adds_body h r ref id op.body) (any (λ x. adds_body h r ref id x.body) ops)
              (contains id (group ref f.claim_ids_by_ref)) (ih.refs ref id) (one.refs ref id);
        claims = λ id c e. later m id c (ih.claims id c e) (one.claims id c);
        is_dict = λ d. ih.is_dict (one.is_dict d);
      }
    where
      later :
          (m : Facts) (id : String) (c : Claim)
          → (AddedBy c ops × (c.claim_id ≡ id)) ⊎ (get id m.claims_by_id ≡ some c)
          → (get id m.claims_by_id ≡ some c
              → ((op.body ≡ claim_added c) × (c.claim_id ≡ id)) ⊎ (get id f.claims_by_id ≡ some c))
          → (AddedBy c (op ∷ ops) × (c.claim_id ≡ id)) ⊎ (get id f.claims_by_id ≡ some c)
      later m id c (inl ((x, there, adds), same)) before = inl ((x, inr there, adds), same)
      later m id c (inr e) before = elim (before e) [
        | inl q ↦ inl ((op, inl refl, q.0), q.1)
        | inr old ↦ inr old
      ]

  -- The operation adds a claim with the identifier, whose reference some operation retracts.
  abbrev pub adds_retracted : List Op → String → Body → Bool
  adds_retracted ops id (claim_added c) =
      c.claim_id == id && any (λ op. retracts_ref_body op.body (claim_ref_for_claim h r c)) ops
  adds_retracted ops id _ = false

  -- A claim is withdrawn by its identifier, or by its reference.
  abbrev pub is_withdrawn : List Op → String → Bool
  is_withdrawn ops id =
      any (λ op. retracts_body op.body id) ops || any (λ op. adds_retracted ops id op.body) ops
