-- ===== src/Materialize/Incremental/Log.antt =====
-- The facts of the incremental loop are those of all the operations, of the log and the new ones.
use statefuse.Base.{
  String, ◌≡◌, refl, sym, ◌∙◌, ap, ap₂, subst, Bool, true, false, ◌&&◌, ◌||◌, ◌⊎◌, Option,
  Option-cases, none, some, List, [], ◌∷◌, ◌++◌, arith, inl, inr, In, In-append, any, any-append,
  append_assoc, append_nil, is_some, eq_iff, if◌then◌else◌, Bool-cases,
}
use statefuse.Base.Dict.{Dict, IsDict, get, put, get-put, put-IsDict, key_refl}
use statefuse.Base.Order.{string_key, ◌==◌}
use statefuse.Base.Sorted.{contains}
use statefuse.Base.Groups.{group, contains-add_to}
use statefuse.Result.{Result, ok, raise, collision, ◌>>=◌, >>=-eq-ok, ok-injective}
use statefuse.Host.{Host}
use statefuse.Model.Claim.{Claim}
use statefuse.Ops.{Op, Body, claim_added, claim_retracted}
use statefuse.Conflict.{PredicateRegistry, claim_ref_for_claim}
use statefuse.Conflict.Detect.{claim_eq}
use statefuse.Materialize.Facts.{Facts, no_facts}
use statefuse.Materialize.Facts.Claims.{retracts_body, retracts_ref_body, adds_body}
use statefuse.Materialize.Facts.Log.{AddedBy, Collected}
use statefuse.Materialize.Incremental.{Working, insert_immutable, add_claim}
use statefuse.Materialize.Incremental.Rounds.{apply_claim, apply_body, apply_ops}
use statefuse.Materialize.Incremental.Sets.{has-append_sorted_named}
use statefuse.Materialize.Incremental.Consistent.{IsConsistent, Same}
use statefuse.Materialize.Incremental.Retraction.{apply_retraction-facts}
use statefuse.Materialize.Incremental.Preserved.{apply_body-Same, apply_body-IsConsistent}

-- Claims with one identifier are one claim.
abbrev pub OneClaim : List Op → Type 0
OneClaim ops = (a b : Claim) → AddedBy a ops → AddedBy b ops → a.claim_id ≡ b.claim_id → a ≡ b

AddedBy-append : (c : Claim) (l m : List Op) → AddedBy c l → AddedBy c (l ++ m)
AddedBy-append c l m (op, there, adds) = (op, (In-append op l m).1 (inl there), adds)

AddedBy-last :
    (c : Claim) (l : List Op) (op : Op) → op.body ≡ claim_added c → AddedBy c (l ++ op ∷ [])
AddedBy-last c l op adds = (op, (In-append op l (op ∷ [])).1 (inr (inl refl)), adds)

-- One more operation at the end.
any_last :
    (p : Op → Bool) (l : List Op) (op : Op) {b c : Bool}
    → b ≡ any p l || false
    → c ≡ p op || b
    → c ≡ any p (l ++ op ∷ []) || false
any_last p l op e f = ground (arith, e, f, any-append p l (op ∷ []))

pub In-any : (p : Op → Bool) (x : Op) (l : List Op) → In x l → p x ≡ true → any p l ≡ true
In-any p x [] there h = absurd there
In-any p x (y ∷ l) (inl e) h = ap (λ b. b || any p l) (ap p (sym e) ∙ h)
In-any p x (y ∷ l) (inr there) h = ap (λ b. p y || b) (In-any p x l there h) ∙ ground arith

module _ (h : Host) (r : PredicateRegistry) where
  abbrev pub Seen : List Op → Facts → Type 0
  Seen ops f = Collected h r no_facts ops f

  -- What a round does to the facts.
  record Step (w : Working) (b : Body) (f : Facts) : Type 0 where
    by_target :
        (id : String)
        → is_some (get id f.retractions_by_target)
          ≡ retracts_body b id || is_some (get id w.facts.retractions_by_target)
    by_target_ref :
        (ref : String)
        → is_some (get ref f.retractions_by_target_ref)
          ≡ retracts_ref_body b ref || is_some (get ref w.facts.retractions_by_target_ref)
    refs :
        (ref id : String)
        → contains id (group ref f.claim_ids_by_ref)
          ≡ adds_body h r ref id b || contains id (group ref w.facts.claim_ids_by_ref)
    claims :
        (id : String) (c : Claim)
        → get id f.claims_by_id ≡ some c
        → ((b ≡ claim_added c) × (c.claim_id ≡ id)) ⊎ (get id w.facts.claims_by_id ≡ some c)
    is_dict : IsDict w.facts.claims_by_id → IsDict f.claims_by_id

  Step-Seen :
      (w : Working) (ops : List Op) (op : Op) (f : Facts)
      → Step w op.body f
      → Seen ops w.facts
      → Seen (ops ++ op ∷ []) f
  unfolding get group contains
  Step-Seen w ops op f step seen = record {
    by_target = λ id.
        any_last (λ x. retracts_body x.body id) ops op (seen.by_target id) (step.by_target id);
    by_target_ref = λ ref.
        any_last (λ x. retracts_ref_body x.body ref) ops op (seen.by_target_ref ref)
          (step.by_target_ref ref);
    refs = λ ref id.
        any_last (λ x. adds_body h r ref id x.body) ops op (seen.refs ref id) (step.refs ref id);
    claims = λ id c there. elim (step.claims id c there) [
      | inl p ↦ inl (AddedBy-last c ops op p.0, p.1)
      | inr old ↦ inl (go (seen.claims id c old))
    ];
    is_dict = λ d. step.is_dict (seen.is_dict d);
  }
    where
      go :
          {c : Claim} {id : String}
          → (AddedBy c ops × (c.claim_id ≡ id)) ⊎ (none ≡ some c)
          → AddedBy c (ops ++ op ∷ []) × (c.claim_id ≡ id)
      go {c} (inl p) = (AddedBy-append c ops (op ∷ []) p.0, p.1)
      go (inr e) = cc e

  Same-Step :
      (w v : Working) (b : Body)
      → Same w v
      → ((id : String) → retracts_body b id ≡ false)
      → ((ref : String) → retracts_ref_body b ref ≡ false)
      → ((ref id : String)
          → adds_body h r ref id b && contains id (group ref w.facts.claim_ids_by_ref)
            ≡ adds_body h r ref id b)
      → Step w b v.facts
  Same-Step w v b (claims, refs, by_target, by_target_ref, _, _) x y z = record {
    by_target = λ id. rw (sym by_target, x id) refl;
    by_target_ref = λ ref. rw (sym by_target_ref, y ref) refl;
    refs = λ ref id. rw (sym refs) (within (z ref id));
    claims = λ id c there. inr (ap (get id) claims ∙ there);
    is_dict = λ d. subst IsDict claims d;
  }
    where
      within : {a b : Bool} → (a && b) ≡ a → b ≡ (a || b)
      within e = ground (arith, e)

  new-Step :
      (w : Working) (c : Claim)
      → Step w (claim_added c) (add_claim h r w c (put c.claim_id c w.facts.claims_by_id)).facts
  unfolding add_claim
  new-Step w c = record {
    by_target = λ id. refl;
    by_target_ref = λ ref. refl;
    refs = λ ref id.
        contains-add_to (claim_ref_for_claim h r c) ref c.claim_id id w.facts.claim_ids_by_ref;
    claims = λ id d there.
        let here = sym (get-put c.claim_id id c w.facts.claims_by_id) ∙ there in
        elim (Bool-cases (c.claim_id == id)) [
          | inl own ↦
              let equal : c ≡ d = ground (arith, own, here) in
              inl (
                ap claim_added equal,
                ap (λ y. y.claim_id) (sym equal) ∙ (eq_iff c.claim_id id).0 own,
              )
          | inr other ↦ inr (ground (arith, other, here))
        ];
    is_dict = put-IsDict c.claim_id c w.facts.claims_by_id;
  }

  -- A claim of the operations stands under its reference.
  pub Seen-filed :
      (f : Facts) (ops : List Op) (c : Claim)
      → Seen ops f
      → AddedBy c ops
      → contains c.claim_id (group (claim_ref_for_claim h r c) f.claim_ids_by_ref) ≡ true
  Seen-filed f ops c seen (op, there, adds) =
      seen.refs (claim_ref_for_claim h r c) c.claim_id
      ∙ ap
          (λ b.
            b || contains c.claim_id (group (claim_ref_for_claim h r c) no_facts.claim_ids_by_ref))
          (In-any (λ x. adds_body h r (claim_ref_for_claim h r c) c.claim_id x.body) op ops there
            (ap (adds_body h r (claim_ref_for_claim h r c) c.claim_id) adds
              ∙ ap₂ (λ a b. a && b) (key_refl (claim_ref_for_claim h r c)) (key_refl c.claim_id)))

  known-Step :
      (w : Working) (ops : List Op) (c : Claim)
      → Seen ops w.facts
      → AddedBy c ops
      → Step w (claim_added c) w.facts
  known-Step w ops c seen added =
      Same-Step w w (claim_added c) (refl, refl, refl, refl, refl, refl) (λ id. refl) (λ ref. refl)
        (λ ref id.
          go ref id (Bool-cases (claim_ref_for_claim h r c == ref)) (Bool-cases (c.claim_id == id)))
    where
      go :
          (ref id : String)
          → ((claim_ref_for_claim h r c == ref) ≡ true)
            ⊎ ((claim_ref_for_claim h r c == ref) ≡ false)
          → ((c.claim_id == id) ≡ true) ⊎ ((c.claim_id == id) ≡ false)
          → ((claim_ref_for_claim h r c == ref && c.claim_id == id)
              && contains id (group ref w.facts.claim_ids_by_ref))
            ≡ (claim_ref_for_claim h r c == ref && c.claim_id == id)
      go ref id (inl p) (inl q) =
          ap₂ (λ a b. a && b) (ap₂ (λ a b. a && b) p q)
            (ap₂ (λ a b. contains b (group a w.facts.claim_ids_by_ref))
                (sym ((eq_iff (claim_ref_for_claim h r c) ref).0 p))
                (sym ((eq_iff c.claim_id id).0 q))
              ∙ Seen-filed w.facts ops c seen added)
          ∙ sym (ap₂ (λ a b. a && b) p q)
      go ref id (inl p) (inr q) = rw (p, q) refl
      go ref id (inr p) q = rw p refl

  claim-Step :
      (w : Working) (ops : List Op) (op : Op) (c : Claim) {v : Working}
      → Seen ops w.facts
      → OneClaim (ops ++ op ∷ [])
      → op.body ≡ claim_added c
      → apply_claim h r w c ≡ ok v
      → Step w (claim_added c) v.facts
  unfolding apply_claim insert_immutable get
  claim-Step w ops op c {v} seen one adds done =
      elim (Option-cases (get c.claim_id w.facts.claims_by_id)) [
        | inl new ↦
            subst (λ u. Step w (claim_added c) u.facts) (ok-injective (sym (ap round new) ∙ done))
              (new-Step w c)
        | inr (x, there) ↦
            known (claim_eq x c) (old x (seen.claims c.claim_id x there))
              (sym (ap round there) ∙ done)
      ]
    where
      rest : Dict String Claim × Bool → Result Working
      rest p = ok (if p.1 then add_claim h r w c p.0 else w)

      checked : Bool → Result (Dict String Claim × Bool)
      checked b =
          if b then ok (w.facts.claims_by_id, false) else raise (collision "claim_id" c.claim_id)

      round : Option Claim → Result Working
      round o =
          (elim o [
            | none ↦ ok (put c.claim_id c w.facts.claims_by_id, true)
            | some x ↦ checked (claim_eq x c)
          ])
          >>= rest

      old :
          (x : Claim)
          → (AddedBy x ops × (x.claim_id ≡ c.claim_id)) ⊎ (none ≡ some x)
          → AddedBy c ops
      old x (inl p) =
          subst (λ y. AddedBy y ops)
            (one x c (AddedBy-append x ops (op ∷ []) p.0) (AddedBy-last c ops op adds) p.1) p.0
      old x (inr e) = cc e

      known :
          (b : Bool) → AddedBy c ops → (checked b >>= rest) ≡ ok v → Step w (claim_added c) v.facts
      known true added e =
          subst (λ u. Step w (claim_added c) u.facts) (ok-injective e)
            (known-Step w ops c seen added)
      known false added e = ground (arith, e)

  body-Step :
      (w : Working) (ops : List Op) (op : Op) (b : Body) {v : Working}
      → IsConsistent w
      → Seen ops w.facts
      → OneClaim (ops ++ op ∷ [])
      → op.body ≡ b
      → apply_body h r w op b ≡ ok v
      → Step w b v.facts
  unfolding apply_body
  body-Step w ops op (claim_added c) before seen one adds done =
      claim-Step w ops op c seen one adds done
  body-Step w ops op (claim_retracted x) before seen one adds done =
      subst (λ u. Step w (claim_retracted x) u.facts) (ok-injective done)
        (subst (Step w (claim_retracted x)) (sym (apply_retraction-facts w op x before)) (record {
          by_target =
              λ id. has-append_sorted_named x.target_claim_id op id w.facts.retractions_by_target;
          by_target_ref = λ ref.
              has-append_sorted_named x.target_claim_ref op ref w.facts.retractions_by_target_ref;
          refs = λ ref id. refl;
          claims = λ id c there. inr there;
          is_dict = λ d. d;
        }))
  body-Step w ops op b {v} before seen one adds done =
      Same-Step w v b (apply_body-Same w h r op b refl done) (λ id. refl) (λ ref. refl)
        (λ ref id. refl)

  AddedBy-front :
      (c : Claim) (l : List Op) (op : Op) (m : List Op)
      → AddedBy c (l ++ op ∷ [])
      → AddedBy c (l ++ op ∷ m)
  AddedBy-front c l op m (x, there, adds) = (
    x,
    (In-append x l (op ∷ m)).1 (elim ((In-append x l (op ∷ [])).0 there) [
      | inl old ↦ inl old
      | inr last ↦ elim last [ inl e ↦ inr (inl e) | inr no_place ↦ absurd no_place ]
    ]),
    adds,
  )

  -- The facts of the loop, if they were those of some operations, are those of these operations
  -- followed by the new ones.
  pub apply_ops-Seen :
      (w : Working) (seen ops : List Op) {v : Working}
      → IsConsistent w
      → Seen seen w.facts
      → OneClaim (seen ++ ops)
      → apply_ops h r w ops ≡ ok v
      → Seen (seen ++ ops) v.facts
  unfolding apply_ops
  apply_ops-Seen w seen [] {v} before all one done =
      subst (λ l. Seen l v.facts) (sym (append_nil seen))
        (subst (λ u. Seen seen u.facts) (ok-injective done) all)
  apply_ops-Seen w seen (op ∷ ops) {v} before all one done =
      let (next, first, rest) = >>=-eq-ok (apply_body h r w op op.body) _ done in
      let one_op : OneClaim (seen ++ op ∷ []) =
        λ a b p q. one a b (AddedBy-front a seen op ops p) (AddedBy-front b seen op ops q) in
      let step = body-Step w seen op op.body before all one_op refl first in
      subst (λ l. Seen l v.facts) (append_assoc seen (op ∷ []) ops)
        (apply_ops-Seen next (seen ++ op ∷ []) ops
          (apply_body-IsConsistent w h r op op.body before first)
          (Step-Seen w seen op next.facts step all)
          (subst OneClaim (sym (append_assoc seen (op ∷ []) ops)) one) rest)
