-- ===== src/Materialize/Active/Exact.antt =====
-- The active claims of a key, exactly.
use statefuse.Base.{
  String, ◌≡◌, refl, sym, ◌∙◌, ap, subst, Bool, true, false, ◌↔◌, some, List, [], ◌∷◌, ◌++◌,
  if◌then◌else◌, arith, inl, inr, ◌⊎◌, Bool-cases, In, In-append, is_some, eq_iff,
}
use statefuse.Base.Dict.{Dict, IsDict, get, key_refl}
use statefuse.Base.Order.{string_key, ◌==◌}
use statefuse.Base.Sorted.{contains}
use statefuse.Base.Groups.{group, group-append_to}
use statefuse.Result.{Result, ok, ◌>>=◌, >>=-eq-ok, ok-injective}
use statefuse.Host.{Host}
use statefuse.Model.ClaimKey.{ClaimKey, claim_key_key}
use statefuse.Model.Claim.{Claim}
use statefuse.Conflict.Overlap.{claim_applies}
use statefuse.Materialize.Active.{Scope, Split, file_claim, split_claim, split_claims}

-- The claim is not among the inactive ones, and applies.
abbrev pub Stands : Host → List String → Scope → String → Claim → Type 0
Stands h inactive scope id c =
    (contains id inactive ≡ false) × (claim_applies h c scope.valid_at scope.context ≡ ok true)

module _ (h : Host) (inactive : List String) (scope : Scope) (c : Claim) (key : ClaimKey) where
  -- The claim is in the group of the key.
  abbrev Filed : Split → Type 0
  Filed s = In c (group key s.active)

  abbrev Enters : String → Claim → Type 0
  Enters id d = (c ≡ d) × (d.key ≡ key) × Stands h inactive scope id d

  Filed-applies :
      (s : Split) (d : Claim) → Filed (file_claim d s true) ↔ (((c ≡ d) × (d.key ≡ key)) ⊎ Filed s)
  unfolding file_claim
  Filed-applies s d =
      subst (λ l. In c l ↔ (((c ≡ d) × (d.key ≡ key)) ⊎ Filed s))
        (sym (group-append_to d.key key d s.active)) (go (d.key == key) refl)
    where
      go :
          (b : Bool)
          → (d.key == key) ≡ b
          → In c (if b then group key s.active ++ d ∷ [] else group key s.active)
            ↔ (((c ≡ d) × (d.key ≡ key)) ⊎ Filed s)
      go true own =
          let same = (claim_key_key.beq_iff d.key key).0 own in
          (
            λ there. elim ((In-append c (group key s.active) (d ∷ [])).0 there) [
              | inl old ↦ inr old
              | inr new ↦ elim new [ inl e ↦ inl (e, same) | inr no_place ↦ absurd no_place ]
            ],
            λ q.
                (In-append c (group key s.active) (d ∷ [])).1
                  (elim q [ inl p ↦ inr (inl p.0) | inr old ↦ inl old ]),
          )
      go false other = (
        λ there. inr there,
        λ q. elim q [
          | inl p ↦ cc (sym other ∙ (claim_key_key.beq_iff d.key key).1 p.1)
          | inr old ↦ old
        ],
      )

  split_claim-Filed :
      (s : Split) (id : String) (d : Claim) {t : Split}
      → split_claim h inactive scope s id d ≡ ok t
      → Filed t ↔ (Enters id d ⊎ Filed s)
  unfolding split_claim
  split_claim-Filed s id d {t} done = elim (Bool-cases (contains id inactive)) [
    | inl out ↦
        subst (λ x. Filed x ↔ (Enters id d ⊎ Filed s)) (ok-injective (sym (ap round out) ∙ done))
          (λ old. inr old, λ q. elim q [ inl p ↦ cc (sym p.2.0 ∙ out) | inr old ↦ old ])
    | inr standing ↦ active standing (sym (ap round standing) ∙ done)
  ]
    where
      round : Bool → Result Split
      round b = if b then ok s else (do
        applies ← claim_applies h d scope.valid_at scope.context
        ok (file_claim d s applies))

      active : contains id inactive ≡ false → round false ≡ ok t → Filed t ↔ (Enters id d ⊎ Filed s)
      active standing filed =
          let (b, applies, made) =
            >>=-eq-ok (claim_applies h d scope.valid_at scope.context)
              (λ applies. ok (file_claim d s applies)) filed in
          subst (λ x. Filed x ↔ (Enters id d ⊎ Filed s)) (ok-injective made) (by b applies)
        where
          by :
              (b : Bool)
              → claim_applies h d scope.valid_at scope.context ≡ ok b
              → Filed (file_claim d s b) ↔ (Enters id d ⊎ Filed s)
          by true applies = (
            λ there. elim ((Filed-applies s d).0 there) [
              | inl p ↦ inl (p.0, p.1, (standing, applies))
              | inr old ↦ inr old
            ],
            λ q. (Filed-applies s d).1 (elim q [ inl p ↦ inl (p.0, p.1) | inr old ↦ inr old ]),
          )
          by false applies =
              (λ old. inr old, λ q. elim q [ inl p ↦ cc (sym p.2.1 ∙ applies) | inr old ↦ old ])

  abbrev EntersFrom : Dict String Claim → Type 0
  EntersFrom [] = ⊥
  EntersFrom ((id, d) ∷ claims) = Enters id d ⊎ EntersFrom claims

  split_claims-Filed :
      (s : Split) (claims : Dict String Claim) {t : Split}
      → split_claims h inactive scope s claims ≡ ok t
      → Filed t ↔ (EntersFrom claims ⊎ Filed s)
  unfolding split_claims
  split_claims-Filed s [] done =
      subst (λ x. Filed x ↔ (⊥ ⊎ Filed s)) (ok-injective done)
        (λ old. inr old, λ q. elim q [ inl no_claim ↦ absurd no_claim | inr old ↦ old ])
  split_claims-Filed s ((id, d) ∷ claims) done =
      let (m, first, rest) = >>=-eq-ok (split_claim h inactive scope s id d) _ done in
      let one = split_claim-Filed s id d first in
      let ih = split_claims-Filed m claims rest in
      (
        λ there. elim (ih.0 there) [
          | inl later ↦ inl (inr later)
          | inr now ↦ elim (one.0 now) [ inl p ↦ inl (inl p) | inr old ↦ inr old ]
        ],
        λ q. ih.1 (elim q [
          | inl p ↦ elim p [ inl now ↦ inr (one.1 (inl now)) | inr later ↦ inl later ]
          | inr old ↦ inr (one.1 (inr old))
        ]),
      )

  abbrev pub Stored : Dict String Claim → Type 0
  Stored claims =
      (get c.claim_id claims ≡ some c) × (c.key ≡ key) × Stands h inactive scope c.claim_id c

  first_entry :
      (id : String) (d : Claim) (claims : Dict String Claim) → get id ((id, d) ∷ claims) ≡ some d
  unfolding get
  first_entry id d claims = rw (key_refl id) refl

  later_entry :
      (id k : String) (d e : Claim) (claims : Dict String Claim)
      → is_some (get id claims) ≡ false
      → get k claims ≡ some e
      → get k ((id, d) ∷ claims) ≡ some e
  unfolding get
  later_entry id k d e claims absent there = ground (arith, absent, there, eq_iff id k)

  move :
      (id : String) (d : Claim)
      → d.claim_id ≡ id
      → (c ≡ d)
      → Enters id d ↔ ((c.key ≡ key) × Stands h inactive scope c.claim_id c)
  move id d same e = (
    λ p. (
      ap (λ x. x.key) e ∙ p.1,
      subst (λ x. Stands h inactive scope x c) (sym same ∙ ap (λ x. x.claim_id) (sym e))
          (subst (Stands h inactive scope id) (sym e) p.2),
    ),
    λ q. (
      e,
      ap (λ x. x.key) (sym e) ∙ q.0,
      subst (λ x. Stands h inactive scope x d) (ap (λ x. x.claim_id) e ∙ same)
          (subst (Stands h inactive scope c.claim_id) e q.1),
    ),
  )

  -- The entries of a dictionary whose claims stand under their identifiers.
  entry-get :
      (claims : Dict String Claim)
      → IsDict claims
      → ((id : String) (d : Claim) → get id claims ≡ some d → d.claim_id ≡ id)
      → EntersFrom claims ↔ Stored claims
  unfolding get
  entry-get [] dict keyed = (λ no_claim. absurd no_claim, λ q. cc q.0)
  entry-get ((id, d) ∷ claims) dict keyed =
      let own_id = keyed id d (first_entry id d claims) in
      let ih =
        entry-get claims dict.1
          (λ k e there. keyed k e (later_entry id k d e claims dict.0 there)) in
      elim (Bool-cases (id == c.claim_id)) [
        | inl own ↦ (
          λ q. elim q [
            | inl p ↦ let s = (move id d own_id p.0).0 p in (rw own (ap some (sym p.0)), s.0, s.1)
            | inr later ↦ absurd (ground (arith, own, dict.0, (ih.0 later).0, eq_iff id c.claim_id))
          ],
          λ q. let e : c ≡ d = ground (arith, own, q.0) in inl ((move id d own_id e).1 (q.1, q.2)),
        )
        | inr other ↦ (
          λ q. elim q [
            | inl p ↦ absurd (
                cc (
                  sym other
                  ∙ (eq_iff id c.claim_id).1 (sym own_id ∙ ap (λ x. x.claim_id) (sym p.0))))
            | inr later ↦ let s = ih.0 later in (rw other s.0, s.1, s.2)
          ],
          λ q. inr (ih.1 (ground (arith, other, q.0), q.1, q.2)),
        )
      ]

  -- The division of a dictionary puts exactly the claims that stand under their keys.
  pub split_claims-Stored :
      (claims : Dict String Claim) {t : Split}
      → IsDict claims
      → ((id : String) (d : Claim) → get id claims ≡ some d → d.claim_id ≡ id)
      → split_claims h inactive scope (record { active = []; inapplicable = [] }) claims ≡ ok t
      → In c (group key t.active) ↔ Stored claims
  unfolding group get
  split_claims-Stored claims dict keyed done =
      let divided = split_claims-Filed (record { active = []; inapplicable = [] }) claims done in
      let entries = entry-get claims dict keyed in
      (
        λ there. elim (divided.0 there) [ inl p ↦ entries.0 p | inr no_claim ↦ absurd no_claim ],
        λ q. divided.1 (inl (entries.1 q)),
      )
