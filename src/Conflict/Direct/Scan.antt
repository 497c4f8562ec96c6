-- ===== src/Conflict/Direct/Scan.antt =====
-- The scan is sound and complete: what its conflicts are made of.
use statefuse.Base.{
  String, ◌≡◌, refl, sym, ◌∙◌, ap, subst, Bool, true, false, ◌↔◌, ◌⊎◌, inl, inr, List, [], ◌∷◌,
  arith, if◌then◌else◌, In, In-append, eq_iff, Bool-cases,
}
use statefuse.Base.Order.{string_key, ◌==◌}
use statefuse.Base.Sorted.{sorted_by, contains}
use statefuse.Base.Elements.{In-sorted}
use statefuse.Result.{Result, ok, >>=-eq-ok, >>-eq-ok, ok-injective}
use statefuse.Host.{Host}
use statefuse.Model.Claim.{Claim}
use statefuse.Model.ClaimKey.{ClaimKey}
use statefuse.Conflict.{PredicateRegistry}
use statefuse.Conflict.Identity.{ConflictSet, Request, make_conflict, post_init, anchor_of}
use statefuse.Conflict.Classify.{Records, has_aggregate_applicability}
use statefuse.Conflict.Direct.{
  paired, combinations, select_if, is_incompatible, participants, claims_among, conflict_of,
  witnesses, request_for,
}

module _ {A : Type 0} where
  In-paired : (x y z : A) (l : List A) → In (x, y) (paired z l) → (x ≡ z) × In y l
  In-paired x y z [] h = absurd h
  In-paired x y z (w ∷ l) (inl e) = (ap (λ p. p.0) e, inl (ap (λ p. p.1) e))
  In-paired x y z (w ∷ l) (inr h) = let (e, inside) = In-paired x y z l h in (e, inr inside)

  -- Both parts of a combination are elements.
  pub In-combinations : (x y : A) (l : List A) → In (x, y) (combinations l) → In x l × In y l
  unfolding combinations
  In-combinations x y [] h = absurd h
  In-combinations x y (z ∷ l) h = elim ((In-append (x, y) (paired z l) (combinations l)).0 h) [
    | inl first ↦ let (e, inside) = In-paired x y z l first in (inl e, inr inside)
    | inr later ↦ let (a, b) = In-combinations x y l later in (inr a, inr b)
  ]

  In-kept :
      (P : A → Type 0) (x y : A) (l kept : List A) (passes : Bool)
      → (passes ≡ true) ↔ P y
      → In x kept ↔ (In x l × P x)
      → In x (if passes then y ∷ kept else kept) ↔ ((x ≡ y ⊎ In x l) × P x)
  In-kept P x y l kept true d same = (
    λ h. elim h [
      | inl e ↦ (inl e, subst P (sym e) (d.0 refl))
      | inr k ↦ (inr (same.0 k).0, (same.0 k).1)
    ],
    λ h. elim h.0 [ inl e ↦ inl e | inr k ↦ inr (same.1 (k, h.1)) ],
  )
  In-kept P x y l kept false d same = (
    λ h. (inr (same.0 h).0, (same.0 h).1),
    λ h. elim h.0 [
      | inl e ↦ absurd (let no : false ≡ true = d.1 (subst P e h.1) in cc)
      | inr k ↦ same.1 (k, h.1)
    ],
  )

  -- A filter keeps exactly the elements that pass the test.
  pub In-select_if :
      (test : A → Result Bool) (l : List A) {kept : List A}
      → select_if test l ≡ ok kept
      → (x : A) → In x kept ↔ (In x l × (test x ≡ ok true))
  unfolding select_if
  In-select_if test [] e x =
      subst (λ k. In x k ↔ (In x [] × (test x ≡ ok true))) (ok-injective e)
        (λ h. absurd h, λ h. h.0)
  In-select_if test (y ∷ l) e x =
      let (passes, tested, rest) = >>=-eq-ok (test y) _ e in
      let (kept, run, made) = >>=-eq-ok (select_if test l) _ rest in
      subst (λ k. In x k ↔ (In x (y ∷ l) × (test x ≡ ok true))) (ok-injective made)
        (In-kept (λ z. test z ≡ ok true) x y l kept passes
          (λ p. tested ∙ ap ok p, λ q. ok-injective (sym tested ∙ q)) (In-select_if test l run x))

-- Claims of the list, the first of them the earlier one, that the scan finds incompatible.
abbrev pub Clash : Host → PredicateRegistry → String → List Claim → Claim → Claim → Type 0
Clash h r predicate claims x y =
    In (x, y) (combinations claims) × (is_incompatible h r predicate (x, y) ≡ ok true)

-- A claim of a pair has the identifier.
abbrev pub Named : String → List (Claim × Claim) → Type 0
Named id pairs =
    (x : Claim) × (y : Claim) × In (x, y) pairs × ((x.claim_id ≡ id) ⊎ (y.claim_id ≡ id))

pub In-participants :
    (id : String) (pairs : List (Claim × Claim))
    → (contains id (participants pairs) ≡ true) ↔ Named id pairs
unfolding contains participants
In-participants id [] = (λ h. absurd cc, λ m. absurd m.2)
In-participants id ((x, y) ∷ pairs) = (
  λ h. elim (Bool-cases (x.claim_id == id)) [
    | inl e ↦ (x, y, inl refl, inl ((eq_iff x.claim_id id).0 e))
    | inr n ↦ elim (Bool-cases (y.claim_id == id)) [
      | inl e ↦ (x, y, inl refl, inr ((eq_iff y.claim_id id).0 e))
      | inr m ↦
          let (a, b, inside, which) = (In-participants id pairs).0 (ground (arith, h, n, m)) in
          (a, b, inr inside, which)
    ]
  ],
  λ (a, b, place, which). elim place [
    | inl e ↦ here a b (ap (λ p. p.0) e) (ap (λ p. p.1) e) which
    | inr k ↦ ground (arith, (In-participants id pairs).1 (a, b, k, which))
  ],
)
  where
    here :
        (a b : Claim)
        → a ≡ x
        → b ≡ y
        → (a.claim_id ≡ id) ⊎ (b.claim_id ≡ id)
        → contains id (participants ((x, y) ∷ pairs)) ≡ true
    here a b p q (inl e) =
        let r = (eq_iff x.claim_id id).1 (ap (λ c. c.claim_id) (sym p) ∙ e) in ground (arith, r)
    here a b p q (inr e) =
        let r = (eq_iff y.claim_id id).1 (ap (λ c. c.claim_id) (sym q) ∙ e) in ground (arith, r)

In-claims_among :
    (x : Claim) (ids : List String) (claims : List Claim)
    → In x (claims_among ids claims) ↔ (In x claims × (contains x.claim_id ids ≡ true))
unfolding claims_among
In-claims_among x ids [] = (λ h. absurd h, λ h. h.0)
In-claims_among x ids (c ∷ claims) =
    In-kept (λ z. contains z.claim_id ids ≡ true) x c claims (claims_among ids claims)
      (contains c.claim_id ids) (λ h. h, λ h. h) (In-claims_among x ids claims)

abbrev pub by_id : List Claim → List Claim
by_id = sorted_by (λ c. c.claim_id)

pub In-by_id : (x : Claim) (l : List Claim) → In x (by_id l) ↔ In x l
In-by_id x l = In-sorted (λ c. c.claim_id) x l

-- The candidates of a conflict are those it was asked for.
In-make_conflict :
    (h : Host) (q : Request) {c : ConflictSet}
    → make_conflict h q ≡ ok c
    → (x : Claim) → In x c.candidates ↔ In x q.candidates
unfolding make_conflict post_init
In-make_conflict h q e x =
    let (some_claim, rest) = >>-eq-ok _ _ e in
    let (anchor, anchored, rest) = >>=-eq-ok (anchor_of q.key _) _ rest in
    let (once, rest) = >>-eq-ok _ _ rest in
    let (named, made) = >>-eq-ok _ _ rest in
    subst (λ d. In x d.candidates ↔ In x q.candidates) (ok-injective made)
      (
        λ k. (In-by_id x q.candidates).0 ((In-by_id x (by_id q.candidates)).0 k),
        λ k. (In-by_id x (by_id q.candidates)).1 ((In-by_id x q.candidates).1 k),
      )

pub In-conflict_of :
    (h : Host) (r : PredicateRegistry) (records : Records) (key : ClaimKey) (claims : List Claim)
    (pairs : List (Claim × Claim)) {c : ConflictSet}
    → conflict_of h r records key claims pairs ≡ ok c
    → (x : Claim)
    → In x c.candidates ↔ (In x claims × (contains x.claim_id (participants pairs) ≡ true))
unfolding conflict_of request_for
In-conflict_of h r records key claims pairs e x =
    let candidates = claims_among (participants pairs) claims in
    let (aggregate, tested, rest) = >>=-eq-ok (has_aggregate_applicability h candidates) _ e in
    let (incompatible, seen, made) = >>=-eq-ok (witnesses h pairs) _ rest in
    let asked =
      In-make_conflict h (request_for r records key candidates aggregate incompatible) made x in
    let among = In-claims_among x (participants pairs) claims in
    (λ k. among.0 (asked.0 k), λ k. asked.1 (among.1 k))
