-- ===== src/Materialize/Incremental/NewClaim.antt =====
-- The round of a claim that was not known: it leaves the variables consistent.
use statefuse.Base.{
  String, ◌≡◌, refl, sym, ◌∙◌, ap, subst, Bool, true, false, ◌&&◌, ◌||◌, ◌↔◌, ◌⊎◌, none, some, List,
  [], ◌∷◌, ◌++◌, arith, inl, inr, Bool-cases, In, In-append, any, is_some, eq_iff, if◌then◌else◌,
}
use statefuse.Base.Dict.{get, put, keys, get-put, get-put_self, has}
use statefuse.Base.Order.{string_key, ◌==◌}
use statefuse.Base.Sorted.{contains, contains-keys}
use statefuse.Base.Groups.{
  group, group-append_to, append_to, add_member, contains-add_member, contains-add_to,
}
use statefuse.Host.{Host}
use statefuse.Model.ClaimKey.{ClaimKey, claim_key_key}
use statefuse.Model.Claim.{Claim}
use statefuse.Conflict.{PredicateRegistry, claim_ref_for_claim}
use statefuse.Materialize.Active.{inactive_claim_ids}
use statefuse.Materialize.Incremental.{Working, add_claim}
use statefuse.Materialize.Incremental.Sets.{contains-inactive, any-add_to}
use statefuse.Materialize.Incremental.Consistent.{IsConsistent}

module _ (h : Host) (r : PredicateRegistry) (w : Working) (c : Claim) (before : IsConsistent w)
    (new : get c.claim_id w.facts.claims_by_id ≡ none) where
  abbrev ref : String
  ref = claim_ref_for_claim h r c

  abbrev after : Working
  after = add_claim h r w c (put c.claim_id c w.facts.claims_by_id)

  abbrev gone : Bool
  gone = has c.claim_id w.facts.retractions_by_target || has ref w.facts.retractions_by_target_ref

  abbrev filed_under_retracted : String → Bool
  filed_under_retracted id =
      any (λ j. contains id (group j w.facts.claim_ids_by_ref))
        (keys w.facts.retractions_by_target_ref)

  -- A new claim stands under no reference yet.
  not_filed : filed_under_retracted c.claim_id ≡ false
  not_filed = go (keys w.facts.retractions_by_target_ref)
    where
      go :
          (refs : List String)
          → any (λ j. contains c.claim_id (group j w.facts.claim_ids_by_ref)) refs ≡ false
      go [] = refl
      go (j ∷ refs) = elim (Bool-cases (contains c.claim_id (group j w.facts.claim_ids_by_ref))) [
        | inl there ↦ cc (sym (before.filed j c.claim_id there) ∙ ap is_some new)
        | inr no_place ↦ rw no_place (go refs)
      ]

  inactive_before : contains c.claim_id w.inactive ≡ has c.claim_id w.facts.retractions_by_target
  inactive_before =
      before.inactive c.claim_id ∙ contains-inactive c.claim_id w.facts ∙ close not_filed
    where
      close : {a b : Bool} → b ≡ false → (a || b) ≡ a
      close e = ground (arith, e)

  inactive_added :
      (id : String)
      → contains id after.inactive ≡ (c.claim_id == id && gone) || contains id w.inactive
  unfolding add_claim
  inactive_added id = go gone
    where
      go :
          (b : Bool)
          → contains id (if b then add_member c.claim_id w.inactive else w.inactive)
            ≡ (c.claim_id == id && b) || contains id w.inactive
      go true = contains-add_member c.claim_id id w.inactive ∙ ground arith
      go false = ground arith

  inactive_facts :
      (id : String)
      → contains id (inactive_claim_ids after.facts)
        ≡ has id w.facts.retractions_by_target
          || ((has ref w.facts.retractions_by_target_ref && c.claim_id == id)
              || filed_under_retracted id)
  unfolding add_claim
  inactive_facts id =
      contains-inactive id after.facts
      ∙ ap (λ b. has id w.facts.retractions_by_target || b)
          (any-add_to ref c.claim_id id w.facts.claim_ids_by_ref
              (keys w.facts.retractions_by_target_ref)
            ∙ ap (λ b. (b && c.claim_id == id) || filed_under_retracted id)
                (contains-keys ref w.facts.retractions_by_target_ref))

  inactive_kept :
      (id : String) → contains id after.inactive ≡ contains id (inactive_claim_ids after.facts)
  inactive_kept id =
      inactive_added id
      ∙ ap (λ b. (c.claim_id == id && gone) || b)
          (before.inactive id ∙ contains-inactive id w.facts)
      ∙ go (Bool-cases (c.claim_id == id))
      ∙ sym (inactive_facts id)
    where
      go :
          ((c.claim_id == id) ≡ true) ⊎ ((c.claim_id == id) ≡ false)
          → ((c.claim_id == id && gone)
              || (has id w.facts.retractions_by_target || filed_under_retracted id))
            ≡ has id w.facts.retractions_by_target
              || ((has ref w.facts.retractions_by_target_ref && c.claim_id == id)
                  || filed_under_retracted id)
      go (inl own) =
          rw (own, sym ((eq_iff c.claim_id id).0 own))
            (shuffle (has c.claim_id w.facts.retractions_by_target)
              (has ref w.facts.retractions_by_target_ref) (filed_under_retracted c.claim_id))
        where
          shuffle : (a b d : Bool) → ((a || b) || (a || d)) ≡ (a || ((b && true) || d))
          shuffle a b d = ground arith
      go (inr other) = rw other (
          shuffle (has id w.facts.retractions_by_target) (has ref w.facts.retractions_by_target_ref)
            (filed_under_retracted id))
        where
          shuffle : (a b d : Bool) → (a || d) ≡ (a || ((b && false) || d))
          shuffle a b d = ground arith

  filed_kept :
      (j id : String)
      → contains id (group j after.facts.claim_ids_by_ref) ≡ true
      → is_some (get id after.facts.claims_by_id) ≡ true
  unfolding add_claim
  filed_kept j id there =
      ap is_some (get-put c.claim_id id c w.facts.claims_by_id)
      ∙ go (ref == j) (c.claim_id == id) (before.filed j id)
          (sym (contains-add_to ref j c.claim_id id w.facts.claim_ids_by_ref) ∙ there)
    where
      go :
          (x : Bool) {y : Bool} (b : Bool)
          → (y ≡ true → is_some (get id w.facts.claims_by_id) ≡ true)
          → ((x && b) || y) ≡ true
          → is_some (if b then some c else get id w.facts.claims_by_id) ≡ true
      go x true old e = refl
      go x {y} false old e = old (drop x y e)
        where
          drop : (x y : Bool) → ((x && false) || y) ≡ true → y ≡ true
          drop x y e = ground (arith, e)

  keyed_kept :
      (id : String) (d : Claim) → get id after.facts.claims_by_id ≡ some d → d.claim_id ≡ id
  unfolding add_claim
  keyed_kept id d there =
      let here = sym (get-put c.claim_id id c w.facts.claims_by_id) ∙ there in
      elim (Bool-cases (c.claim_id == id)) [
        | inl own ↦
            let equal : c ≡ d = ground (arith, own, here) in
            ap (λ y. y.claim_id) (sym equal) ∙ (eq_iff c.claim_id id).0 own
        | inr other ↦ before.keyed id d (ground (arith, other, here))
      ]

  -- Whom the round makes active.
  Active-after :
      (d : Claim) (key : ClaimKey)
      → In d (group key after.active)
        ↔ (In d (group key w.active) ⊎ ((gone ≡ false) × (d ≡ c) × (c.key ≡ key)))
  unfolding add_claim
  Active-after d key = go gone
    where
      filed :
          (b : Bool)
          → (c.key == key) ≡ b
          → In d (if b then group key w.active ++ c ∷ [] else group key w.active)
            ↔ (In d (group key w.active) ⊎ ((d ≡ c) × (c.key ≡ key)))
      filed true own =
          let keyed = (claim_key_key.beq_iff c.key key).0 own in
          (
            λ there. elim ((In-append d (group key w.active) (c ∷ [])).0 there) [
              | inl old ↦ inl old
              | inr fresh ↦ elim fresh [ inl e ↦ inr (e, keyed) | inr no_place ↦ absurd no_place ]
            ],
            λ q.
                (In-append d (group key w.active) (c ∷ [])).1
                  (elim q [ inl old ↦ inl old | inr p ↦ inr (inl p.0) ]),
          )
      filed false other = (
        λ there. inl there,
        λ q. elim q [
          | inl old ↦ old
          | inr p ↦ cc (sym other ∙ (claim_key_key.beq_iff c.key key).1 p.1)
        ],
      )

      go :
          (b : Bool)
          → In d (group key (if b then w.active else append_to c.key c w.active))
            ↔ (In d (group key w.active) ⊎ ((b ≡ false) × (d ≡ c) × (c.key ≡ key)))
      go true = (λ old. inl old, λ q. elim q [ inl old ↦ old | inr p ↦ cc p.0 ])
      go false =
          subst
            (λ l.
              In d l ↔ (In d (group key w.active) ⊎ ((false ≡ false) × (d ≡ c) × (c.key ≡ key))))
            (sym (group-append_to c.key key c w.active))
            (
              λ there. elim ((filed (c.key == key) refl).0 there) [
                | inl old ↦ inl old
                | inr p ↦ inr (refl, p.0, p.1)
              ],
              λ q.
                  (filed (c.key == key) refl).1
                    (elim q [ inl old ↦ inl old | inr p ↦ inr (p.1, p.2) ]),
            )

  stored_after :
      (id : String)
      → get id after.facts.claims_by_id
        ≡ (if c.claim_id == id then some c else get id w.facts.claims_by_id)
  unfolding add_claim
  stored_after id = get-put c.claim_id id c w.facts.claims_by_id

  abbrev Alive : Claim → ClaimKey → Type 0
  Alive d key =
      (get d.claim_id after.facts.claims_by_id ≡ some d)
      × (d.key ≡ key)
      × (contains d.claim_id after.inactive ≡ false)

  old-Alive : (d : Claim) (key : ClaimKey) → In d (group key w.active) → Alive d key
  old-Alive d key old =
      let (here, keyed, alive) = (before.active d key).0 old in
      elim (Bool-cases (c.claim_id == d.claim_id)) [
        | inl own ↦ cc (
            sym new
            ∙ ap (λ j. get j w.facts.claims_by_id) ((eq_iff c.claim_id d.claim_id).0 own)
            ∙ here)
        | inr other ↦ (
          stored_after d.claim_id
              ∙ ap (λ b. if b then some c else get d.claim_id w.facts.claims_by_id) other
              ∙ here,
          keyed,
          inactive_added d.claim_id ∙ close gone other alive,
        )
      ]
    where
      close : (b : Bool) {a x : Bool} → a ≡ false → x ≡ false → ((a && b) || x) ≡ false
      close b p q = ground (arith, p, q)

  new-Alive : (key : ClaimKey) → gone ≡ false → c.key ≡ key → Alive c key
  unfolding add_claim
  new-Alive key fresh keyed = (
    get-put_self c.claim_id c w.facts.claims_by_id,
    keyed,
    inactive_added c.claim_id
        ∙ close (has c.claim_id w.facts.retractions_by_target)
            (has ref w.facts.retractions_by_target_ref) (c.claim_id == c.claim_id) fresh
            inactive_before,
  )
    where
      close : (a b e : Bool) {x : Bool} → (a || b) ≡ false → x ≡ a → ((e && (a || b)) || x) ≡ false
      close a b e p q = ground (arith, p, q)

  active-Alive : (d : Claim) (key : ClaimKey) → Alive d key → In d (group key after.active)
  active-Alive d key (here, keyed, alive) =
      let stored = sym (stored_after d.claim_id) ∙ here in
      let rest = sym (inactive_added d.claim_id) ∙ alive in
      (Active-after d key).1 (elim (Bool-cases (c.claim_id == d.claim_id)) [
        | inl own ↦
            let same : c ≡ d = ground (arith, own, stored) in
            inr (
              fresh (c.claim_id == d.claim_id) gone (contains d.claim_id w.inactive) own rest,
              sym same,
              ap (λ y. y.key) same ∙ keyed,
            )
        | inr other ↦ inl (
            (before.active d key).1 (
              ground (arith, other, stored),
              keyed,
              kept (c.claim_id == d.claim_id) gone (contains d.claim_id w.inactive) rest,
            ))
      ])
    where
      fresh : (a b x : Bool) → a ≡ true → ((a && b) || x) ≡ false → b ≡ false
      fresh a b x p q = ground (arith, p, q)

      kept : (a b x : Bool) → ((a && b) || x) ≡ false → x ≡ false
      kept a b x q = ground (arith, q)

  pub add_claim-IsConsistent : IsConsistent after
  add_claim-IsConsistent = record {
    inactive = inactive_kept;
    filed = filed_kept;
    keyed = keyed_kept;
    active = λ d key. (
      λ there. elim ((Active-after d key).0 there) [
        | inl old ↦ old-Alive d key old
        | inr p ↦ subst (λ y. Alive y key) (sym p.1) (new-Alive key p.0 p.2)
      ],
      active-Alive d key,
    );
  }
