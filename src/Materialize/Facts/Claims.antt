-- ===== src/Materialize/Facts/Claims.antt =====
-- The claims, the references and the retractions that the first loop of `materialize` collects
-- are those of the operations.
use statefuse.Base.{
  String, ◌≡◌, refl, sym, ◌∙◌, ap, subst, Bool, false, not, ◌&&◌, ◌||◌, Option, none, some, List,
  arith, inl, inr, ◌⊎◌, Bool-cases, Option-cases, is_some, eq_iff,
}
use statefuse.Base.Dict.{Dict, IsDict, get, put, get-put, put-IsDict}
use statefuse.Base.Order.{string_key, ◌==◌}
use statefuse.Base.Sorted.{contains}
use statefuse.Base.Groups.{group, has-append_to, contains-add_to}
use statefuse.Result.{Result, ok, ◌>>=◌, >>=-eq-ok, ok-injective}
use statefuse.Host.{Host}
use statefuse.Model.Claim.{Claim}
use statefuse.Ops.{
  Op, Body, source_added, evidence_added, claim_added, claim_retracted, decision_added,
  derivation_added, resolution_added, conflict_lifecycle_event_added,
}
use statefuse.Conflict.{PredicateRegistry, claim_ref_for_claim}
use statefuse.Conflict.Detect.{claim_eq}
use statefuse.Materialize.Facts.{
  Facts, keep, with_claim, source_eq, evidence_eq, decision_eq, derivation_eq, resolution_eq,
  event_eq, append_named, keep_claim, keep_retraction, fold_body,
}

-- A retraction names the claim or the reference, and the name is not empty.
abbrev pub names : Option String → String → Bool
names none id = false
names (some name) id = not (name == "") && name == id

abbrev pub retracts_body : Body → String → Bool
retracts_body (claim_retracted r) id = names r.target_claim_id id
retracts_body _ id = false

abbrev pub retracts_ref_body : Body → String → Bool
retracts_ref_body (claim_retracted r) ref = names r.target_claim_ref ref
retracts_ref_body _ ref = false

-- The operation adds a claim with the identifier, under the reference.
abbrev pub adds_body : Host → PredicateRegistry → String → String → Body → Bool
adds_body h r ref id (claim_added c) = claim_ref_for_claim h r c == ref && c.claim_id == id
adds_body h r ref id _ = false

has-append_named :
    (n : Option String) (op : Op) (id : String) (d : Dict String (List Op))
    → is_some (get id (append_named n op d)) ≡ names n id || is_some (get id d)
unfolding append_named
has-append_named none op id d = refl
has-append_named (some name) op id d = elim (Bool-cases (name == "")) [
  | inl empty ↦ rw empty refl
  | inr given ↦ rw given (has-append_to name id op d)
]

-- A claim that is stored after the round is added by it, or was stored before it.
abbrev pub AddsClaim : Facts → Body → Facts → Type 0
AddsClaim f b g =
    (id : String) (c : Claim)
    → get id g.claims_by_id ≡ some c
    → ((b ≡ claim_added c) × (c.claim_id ≡ id)) ⊎ (get id f.claims_by_id ≡ some c)

module _ (h : Host) (r : PredicateRegistry) where
  -- What a round does to the claims, and to the parts that decide on retractions.
  pub record Moves (f : Facts) (b : Body) (g : Facts) : Type 0 where
    pub by_target :
        (id : String)
        → is_some (get id g.retractions_by_target)
          ≡ retracts_body b id || is_some (get id f.retractions_by_target)
    pub by_target_ref :
        (ref : String)
        → is_some (get ref g.retractions_by_target_ref)
          ≡ retracts_ref_body b ref || is_some (get ref f.retractions_by_target_ref)
    pub refs :
        (ref id : String)
        → contains id (group ref g.claim_ids_by_ref)
          ≡ adds_body h r ref id b || contains id (group ref f.claim_ids_by_ref)
    pub claims : AddsClaim f b g
    pub is_dict : IsDict f.claims_by_id → IsDict g.claims_by_id

  moved :
      {V : Type 0} (f : Facts) (b : Body) (m : Result V) (next : V → Facts) {g : Facts}
      → ((v : V) → m ≡ ok v → Moves f b (next v))
      → (m >>= λ v. ok (next v)) ≡ ok g
      → Moves f b g
  moved f b m next all done =
      let (v, here, made) = >>=-eq-ok m (λ v. ok (next v)) done in
      subst (Moves f b) (ok-injective made) (all v here)

  -- A round that leaves these parts alone.
  untouched :
      (f : Facts) (b : Body) (g : Facts)
      → g.retractions_by_target ≡ f.retractions_by_target
      → g.retractions_by_target_ref ≡ f.retractions_by_target_ref
      → g.claim_ids_by_ref ≡ f.claim_ids_by_ref
      → g.claims_by_id ≡ f.claims_by_id
      → ((id : String) → retracts_body b id ≡ false)
      → ((ref : String) → retracts_ref_body b ref ≡ false)
      → ((ref id : String) → adds_body h r ref id b ≡ false)
      → Moves f b g
  untouched f b g p q s t x y z = record {
    by_target = λ id. rw (p, x id) refl;
    by_target_ref = λ ref. rw (q, y ref) refl;
    refs = λ ref id. rw (s, z ref id) refl;
    claims = λ id c e. inr (sym (ap (get id) t) ∙ e);
    is_dict = λ d. subst IsDict (sym t) d;
  }

  pub keep_claims :
      (same : Claim → Claim → Bool) (kind : String) (c : Claim) (d : Dict String Claim)
      {e : Dict String Claim}
      → keep same kind c.claim_id c d ≡ ok e
      → put c.claim_id c d ≡ e
  unfolding keep
  keep_claims same kind c d done = elim (Option-cases (get c.claim_id d)) [
    | inl new ↦ ground (arith, new, done)
    | inr (x, there) ↦ ground (arith, there, done)
  ]

  put_claim :
      (f : Facts) (c : Claim) (g : Facts)
      → put c.claim_id c f.claims_by_id ≡ g.claims_by_id
      → AddsClaim f (claim_added c) g
  put_claim f c g e id x there =
      let stored = sym (get-put c.claim_id id c f.claims_by_id) ∙ ap (get id) e ∙ there in
      elim (Bool-cases (c.claim_id == id)) [
        | inl own ↦
            let same : c ≡ x = ground (arith, own, stored) in
            inl
              (ap claim_added same, ap (λ y. y.claim_id) (sym same) ∙ (eq_iff c.claim_id id).0 own)
        | inr other ↦ inr (ground (arith, other, stored))
      ]

  pub fold_body-Moves :
      (f : Facts) (op : Op) (b : Body) {g : Facts} → fold_body h r f op b ≡ ok g → Moves f b g
  unfolding fold_body keep_claim keep_retraction
  fold_body-Moves f op (claim_added c) done =
      moved f (claim_added c) (keep claim_eq "claim_id" c.claim_id c f.claims_by_id)
        (with_claim h r f c)
        (λ claims kept.
          let stored = keep_claims claim_eq "claim_id" c f.claims_by_id kept in
          record {
            by_target = λ id. refl;
            by_target_ref = λ ref. refl;
            refs = λ ref id.
                contains-add_to (claim_ref_for_claim h r c) ref c.claim_id id f.claim_ids_by_ref;
            claims = put_claim f c (with_claim h r f c claims) stored;
            is_dict = λ d. subst IsDict stored (put-IsDict c.claim_id c f.claims_by_id d);
          })
        done
  fold_body-Moves f op (claim_retracted x) done =
      subst (Moves f (claim_retracted x)) (ok-injective done) (record {
        by_target = λ id. has-append_named x.target_claim_id op id f.retractions_by_target;
        by_target_ref =
            λ ref. has-append_named x.target_claim_ref op ref f.retractions_by_target_ref;
        refs = λ ref id. refl;
        claims = λ id c e. inr e;
        is_dict = λ d. d;
      })
  fold_body-Moves f op (source_added x) done =
      moved f (source_added x) (keep source_eq "source_id" x.source_id x f.sources_by_id)
        (λ v. record f { sources_by_id = v })
        (λ v _.
          untouched f (source_added x) (record f { sources_by_id = v }) refl refl refl refl
            (λ _. refl) (λ _. refl) (λ _ _. refl))
        done
  fold_body-Moves f op (evidence_added x) done =
      moved f (evidence_added x) (keep evidence_eq "evidence_id" x.evidence_id x f.evidence_by_id)
        (λ v. record f { evidence_by_id = v })
        (λ v _.
          untouched f (evidence_added x) (record f { evidence_by_id = v }) refl refl refl refl
            (λ _. refl) (λ _. refl) (λ _ _. refl))
        done
  fold_body-Moves f op (decision_added x) done =
      moved f (decision_added x) (keep decision_eq "decision_id" x.decision_id x f.decisions_by_id)
        (λ v. record f { decisions_by_id = v })
        (λ v _.
          untouched f (decision_added x) (record f { decisions_by_id = v }) refl refl refl refl
            (λ _. refl) (λ _. refl) (λ _ _. refl))
        done
  fold_body-Moves f op (derivation_added x) done =
      moved f (derivation_added x)
        (keep derivation_eq "derivation_id" x.derivation_id x f.derivations_by_id)
        (λ v. record f { derivations_by_id = v })
        (λ v _.
          untouched f (derivation_added x) (record f { derivations_by_id = v }) refl refl refl refl
            (λ _. refl) (λ _. refl) (λ _ _. refl))
        done
  fold_body-Moves f op (resolution_added x) done =
      moved f (resolution_added x)
        (keep resolution_eq "resolution_id" x.resolution_id x f.resolutions_by_id)
        (λ v. record f { resolutions_by_id = v })
        (λ v _.
          untouched f (resolution_added x) (record f { resolutions_by_id = v }) refl refl refl refl
            (λ _. refl) (λ _. refl) (λ _ _. refl))
        done
  fold_body-Moves f op (conflict_lifecycle_event_added x) done =
      moved f (conflict_lifecycle_event_added x)
        (keep event_eq "event_id" x.event_id x f.lifecycle_events_by_id)
        (λ v. record f { lifecycle_events_by_id = v })
        (λ v _.
          untouched f (conflict_lifecycle_event_added x) (record f { lifecycle_events_by_id = v })
            refl refl refl refl (λ _. refl) (λ _. refl) (λ _ _. refl))
        done
