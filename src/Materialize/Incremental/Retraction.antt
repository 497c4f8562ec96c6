-- ===== src/Materialize/Incremental/Retraction.antt =====
-- The round of a retraction: it leaves the variables consistent.
use statefuse.Base.{
  String, ◌≡◌, sym, ◌∙◌, ap, ap₂, subst, Bool, true, false, ◌&&◌, ◌||◌, ◌↔◌, some, List, [], ◌∷◌,
  arith, In, any, is_some,
}
use statefuse.Base.Dict.{get}
use statefuse.Base.Order.{string_key}
use statefuse.Base.Sorted.{contains}
use statefuse.Base.Groups.{group}
use statefuse.Model.ClaimKey.{claim_key_key}
use statefuse.Model.Claim.{Claim}
use statefuse.Ops.{Op}
use statefuse.Ops.Retraction.{ClaimRetracted}
use statefuse.Materialize.Active.{inactive_claim_ids}
use statefuse.Materialize.Incremental.{Working, add_members, given, targets_under, file_retraction}
use statefuse.Materialize.Incremental.Rounds.{apply_retraction}
use statefuse.Materialize.Incremental.Sets.{
  has-append_sorted_named, contains-given, contains-add_members, contains-inactive,
  any-append_sorted_named, contains-targets_under,
}
use statefuse.Materialize.Incremental.Consistent.{IsConsistent}
use statefuse.Materialize.Incremental.Withdraw.{Withdraws, withdraw-Withdraws}

-- The claims that a retraction withdraws.
abbrev targets : Working → ClaimRetracted → List String
targets w x =
    add_members (targets_under (given x.target_claim_ref) w.facts.claim_ids_by_ref)
      (given x.target_claim_id)

any-true :
    (p : String → Bool) (s : Bool) (l : List String)
    → ((j : String) → p j ≡ true → s ≡ true)
    → any p l ≡ true
    → s ≡ true
any-true p s [] each h = ground (arith, h)
any-true p s (x ∷ l) each h = ground (arith, h, each x, any-true p s l each)

module _ (w : Working) (op : Op) (x : ClaimRetracted) (before : IsConsistent w) where
  after : Withdraws (targets w x) (file_retraction op x w) (apply_retraction w op x)
  unfolding apply_retraction
  after =
      withdraw-Withdraws (targets w x) (file_retraction op x w)
        (λ c key old. let q = (before.active c key).0 old in (q.0, q.1))

  abbrev is_stored : String → Bool
  is_stored id = is_some (get id w.facts.claims_by_id)

  abbrev filed_under_given : String → Bool
  filed_under_given id =
      any (λ ref. contains id (group ref w.facts.claim_ids_by_ref)) (given x.target_claim_ref)

  contains-targets :
      (id : String)
      → contains id (targets w x) ≡ contains id (given x.target_claim_id) || filed_under_given id
  contains-targets id =
      contains-add_members id (targets_under (given x.target_claim_ref) w.facts.claim_ids_by_ref)
        (given x.target_claim_id)
      ∙ ap (λ b. b || contains id (given x.target_claim_id))
          (contains-targets_under id (given x.target_claim_ref) w.facts.claim_ids_by_ref)
      ∙ swap (filed_under_given id) (contains id (given x.target_claim_id))
    where
      swap : (a b : Bool) → (a || b) ≡ (b || a)
      swap a b = ground arith

  -- Who is inactive afterwards.
  inactive_after :
      (id : String)
      → contains id (apply_retraction w op x).inactive
        ≡ (contains id (targets w x) && is_stored id)
          || (contains id (given x.target_claim_id) || contains id w.inactive)
  inactive_after id =
      after.inactive id
      ∙ ap (λ b. (contains id (targets w x) && is_stored id) || b)
          (contains-add_members id (given x.target_claim_id) w.inactive)

  inactive_facts :
      (id : String)
      → contains id (inactive_claim_ids (apply_retraction w op x).facts)
        ≡ contains id (given x.target_claim_id) || (filed_under_given id || contains id w.inactive)
  inactive_facts id =
      ap (λ f. contains id (inactive_claim_ids f)) after.facts
      ∙ contains-inactive id (file_retraction op x w).facts
      ∙ ap₂ (λ a b. a || b)
          (has-append_sorted_named x.target_claim_id op id w.facts.retractions_by_target)
          (any-append_sorted_named (λ ref. contains id (group ref w.facts.claim_ids_by_ref))
            x.target_claim_ref op w.facts.retractions_by_target_ref)
      ∙ shuffle (filed_under_given id) (is_some (get id w.facts.retractions_by_target)) _
          (contains-given x.target_claim_id id) (before.inactive id ∙ contains-inactive id w.facts)
    where
      shuffle :
          (d c e : Bool) {a b f : Bool}
          → a ≡ b
          → f ≡ c || e
          → ((b || c) || (d || e)) ≡ (a || (d || f))
      shuffle d c e p q = ground (arith, p, q)

  given_stored : (id : String) → filed_under_given id ≡ true → is_stored id ≡ true
  given_stored id =
      any-true (λ ref. contains id (group ref w.facts.claim_ids_by_ref)) (is_stored id)
        (given x.target_claim_ref) (λ ref. before.filed ref id)

  pub apply_retraction-IsConsistent : IsConsistent (apply_retraction w op x)
  apply_retraction-IsConsistent = record {
    inactive = λ id.
        inactive_after id
        ∙ ap
            (λ b.
              (b && is_stored id)
              || (contains id (given x.target_claim_id) || contains id w.inactive))
            (contains-targets id)
        ∙ close (contains id (given x.target_claim_id)) (contains id w.inactive) (given_stored id)
        ∙ sym (inactive_facts id);
    filed =
        subst
          (λ f.
            (ref id : String)
            → contains id (group ref f.claim_ids_by_ref) ≡ true
            → is_some (get id f.claims_by_id) ≡ true)
          (sym after.facts) before.filed;
    keyed =
        subst (λ f. (id : String) (c : Claim) → get id f.claims_by_id ≡ some c → c.claim_id ≡ id)
          (sym after.facts) before.keyed;
    active = λ c key.
        subst
          (λ f. In c (group key (apply_retraction w op x).active) ↔ (
            (get c.claim_id f.claims_by_id ≡ some c)
            × (c.key ≡ key)
            × (contains c.claim_id (apply_retraction w op x).inactive ≡ false)))
          (sym after.facts)
          (
            λ there.
                let (old, out) = (after.keeps c key).0 there in
                let (here, keyed, alive) = (before.active c key).0 old in
                (
                  here,
                  keyed,
                  inactive_after c.claim_id
                      ∙ none_of (is_stored c.claim_id)
                          (contains c.claim_id (given x.target_claim_id))
                          (filed_under_given c.claim_id) out
                          (sym (contains-targets c.claim_id) ∙ out) alive,
                ),
            λ q.
                let (out, alive) =
                  parts (contains c.claim_id (targets w x)) (is_stored c.claim_id)
                    (contains c.claim_id (given x.target_claim_id)) (contains c.claim_id w.inactive)
                    (ap is_some q.0) (sym (inactive_after c.claim_id) ∙ q.2) in
                (after.keeps c key).1 ((before.active c key).1 (q.0, q.1, alive), out),
          );
  }
    where
      close :
          (a b : Bool) {p s : Bool}
          → (p ≡ true → s ≡ true)
          → (((a || p) && s) || (a || b)) ≡ (a || (p || b))
      close a b h = ground (arith, h)

      none_of :
          (s a p : Bool) {t b : Bool}
          → t ≡ false
          → (a || p) ≡ false
          → b ≡ false
          → ((t && s) || (a || b)) ≡ false
      none_of s a p h k l = ground (arith, h, k, l)

      parts :
          (t s a b : Bool) → s ≡ true → ((t && s) || (a || b)) ≡ false → (t ≡ false) × (b ≡ false)
      parts t s a b h k = ground (arith, h, k)

  pub apply_retraction-facts : (apply_retraction w op x).facts ≡ (file_retraction op x w).facts
  apply_retraction-facts = after.facts
