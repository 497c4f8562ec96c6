-- ===== src/Materialize/Incremental/Withdraw.antt =====
-- The loop of a retraction over the claims that it withdraws.
use statefuse.Base.{
  String, ◌≡◌, refl, sym, ◌∙◌, ap, ap₂, subst, Bool, true, false, ◌&&◌, ◌||◌, ◌↔◌, none, some, List,
  [], ◌∷◌, arith, inl, inr, Bool-cases, Option, Option-cases, In, is_some, eq_iff,
}
use statefuse.Base.Dict.{get, beq_comm}
use statefuse.Base.Order.{string_key, ◌==◌}
use statefuse.Base.Sorted.{contains}
use statefuse.Base.Groups.{group, group-put, contains-add_member}
use statefuse.Model.ClaimKey.{ClaimKey, claim_key_key}
use statefuse.Model.Claim.{Claim}
use statefuse.Materialize.Incremental.{Working, without, deactivate, withdraw}
use statefuse.Materialize.Incremental.Sets.{In-without}

-- What is active is stored, with the key it is active under.
abbrev pub Stored : Working → Type 0
Stored w =
    (c : Claim) (key : ClaimKey)
    → In c (group key w.active)
    → (get c.claim_id w.facts.claims_by_id ≡ some c) × (c.key ≡ key)

abbrev pub Keeps : Working → Working → (String → Bool) → Type 0
Keeps v w out =
    (c : Claim) (key : ClaimKey)
    → In c (group key w.active) ↔ (In c (group key v.active) × (out c.claim_id ≡ false))

-- The loop leaves the facts, and takes the stored claims among the named ones out.
pub record Withdraws (ids : List String) (v w : Working) : Type 0 where
  pub facts : w.facts ≡ v.facts
  pub inactive :
      (id : String)
      → contains id w.inactive
        ≡ (contains id ids && is_some (get id v.facts.claims_by_id)) || contains id v.inactive
  pub keeps : Keeps v w (λ id. contains id ids)

deactivate-Keeps :
    (id : String) (x : Claim) (v : Working)
    → get id v.facts.claims_by_id ≡ some x
    → Stored v
    → Keeps v (deactivate id x v) (λ j. j == id)
deactivate-Keeps id x v there stored c key =
    subst (λ l. In c l ↔ (In c (group key v.active) × ((c.claim_id == id) ≡ false)))
      (sym (group-put x.key key (without id (group x.key v.active)) v.active))
      (elim (Bool-cases (x.key == key)) [
        | inl own ↦ rw own (
            subst
              (λ k.
                In c (without id (group k v.active))
                ↔ (In c (group key v.active) × ((c.claim_id == id) ≡ false)))
              (sym ((claim_key_key.beq_iff x.key key).0 own))
              (In-without id c (group key v.active)))
        | inr other ↦ rw other (λ old. (old, apart other old), λ q. q.0)
      ])
  where
    clash : get c.claim_id v.facts.claims_by_id ≡ some c → (c.claim_id == id) ≡ true → x ≡ c
    clash here e =
        let same : some x ≡ some c =
          sym there
          ∙ ap (λ j. get j v.facts.claims_by_id) (sym ((eq_iff c.claim_id id).0 e))
          ∙ here in
        ground (arith, same)

    apart : (x.key == key) ≡ false → In c (group key v.active) → (c.claim_id == id) ≡ false
    apart other old = elim (Bool-cases (c.claim_id == id)) [
      | inl e ↦
          let (here, keyed) = stored c key old in
          let equal =
            (claim_key_key.beq_iff x.key key).1 (ap (λ y. y.key) (clash here e) ∙ keyed) in
          cc (sym other ∙ equal)
      | inr e ↦ e
    ]

pub withdraw-Withdraws :
    (ids : List String) (v : Working) → Stored v → Withdraws ids v (withdraw ids v)
unfolding withdraw contains
withdraw-Withdraws [] v stored = record {
  facts = refl;
  inactive = λ id. refl;
  keeps = λ c key. (λ old. (old, refl), λ q. q.0);
}
withdraw-Withdraws (id ∷ ids) v stored = elim (Option-cases (get id v.facts.claims_by_id)) [
  | inl absent ↦
      subst step (sym absent)
        (from_absent absent (withdraw ids v) (withdraw-Withdraws ids v stored))
  | inr (x, there) ↦ subst step (sym there) (
      from_there x there (withdraw ids (deactivate id x v)) (
        withdraw-Withdraws ids (deactivate id x v)
          (λ c key old. stored c key ((deactivate-Keeps id x v there stored c key).0 old).0)))
]
  where
    step : Option Claim → Type 0
    step o =
        Withdraws (id ∷ ids) v
          (elim o [ none ↦ withdraw ids v | some c ↦ withdraw ids (deactivate id c v) ])

    from_absent :
        get id v.facts.claims_by_id ≡ none
        → (w : Working) → Withdraws ids v w
        → Withdraws (id ∷ ids) v w
    from_absent absent w all = record {
      facts = all.facts;
      inactive = λ j. all.inactive j ∙ ap (λ b. b || contains j v.inactive) (no_claim j);
      keeps = λ c key. (
        λ old.
            let q = (all.keeps c key).0 old in
            (q.0, ap₂ (λ a b. a || b) (other c (stored c key q.0).0) q.1),
        λ q. (all.keeps c key).1 (q.0, later (id == c.claim_id) (contains c.claim_id ids) q.1),
      );
    }
      where
        later : (a b : Bool) → (a || b) ≡ false → b ≡ false
        later a b h = ground (arith, h)

        other :
            (c : Claim) → get c.claim_id v.facts.claims_by_id ≡ some c → (id == c.claim_id) ≡ false
        other c here = elim (Bool-cases (id == c.claim_id)) [
          | inl e ↦ cc (
              sym absent ∙ ap (λ j. get j v.facts.claims_by_id) ((eq_iff id c.claim_id).0 e) ∙ here)
          | inr e ↦ e
        ]

        no_claim :
            (j : String)
            → (contains j ids && is_some (get j v.facts.claims_by_id))
              ≡ ((id == j || contains j ids) && is_some (get j v.facts.claims_by_id))
        no_claim j = elim (Bool-cases (id == j)) [
          | inl e ↦
              let gone = sym (ap (λ k. get k v.facts.claims_by_id) ((eq_iff id j).0 e)) ∙ absent in
              rw (gone, e) (ground arith)
          | inr e ↦ rw e refl
        ]

    from_there :
        (x : Claim)
        → get id v.facts.claims_by_id ≡ some x
        → (w : Working) → Withdraws ids (deactivate id x v) w
        → Withdraws (id ∷ ids) v w
    from_there x there w all = record {
      facts = all.facts;
      inactive = λ j.
          all.inactive j
          ∙ ap (λ b. (contains j ids && is_some (get j v.facts.claims_by_id)) || b)
              (contains-add_member id j v.inactive)
          ∙ one j;
      keeps = λ c key. (
        λ old.
            let q = (all.keeps c key).0 old in
            let p = (deactivate-Keeps id x v there stored c key).0 q.0 in
            (p.0, ap₂ (λ a b. a || b) (beq_comm id c.claim_id ∙ p.1) q.1),
        λ q.
            let parts = both (id == c.claim_id) (contains c.claim_id ids) q.1 in
            (all.keeps c key).1 (
              (deactivate-Keeps id x v there stored c key).1
                  (q.0, beq_comm c.claim_id id ∙ parts.0),
              parts.1,
            ),
      );
    }
      where
        both : (a b : Bool) → (a || b) ≡ false → (a ≡ false) × (b ≡ false)
        both a b h = ground (arith, h)

        one :
            (j : String)
            → ((contains j ids && is_some (get j v.facts.claims_by_id))
                || (id == j || contains j v.inactive))
              ≡ (((id == j || contains j ids) && is_some (get j v.facts.claims_by_id))
                  || contains j v.inactive)
        one j = elim (Bool-cases (id == j)) [
          | inl e ↦
              let here = sym (ap (λ k. get k v.facts.claims_by_id) ((eq_iff id j).0 e)) ∙ there in
              rw (here, e) (ground arith)
          | inr e ↦ rw e refl
        ]
