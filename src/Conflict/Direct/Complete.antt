-- ===== src/Conflict/Direct/Complete.antt =====
-- The scan is sound and complete: the candidates of a conflict, and what its absence says.
use statefuse.Base.{
  ◌≡◌, refl, ◌∙◌, subst, Bool, true, false, ◌||◌, ◌↔◌, ◌⊎◌, inl, inr, Option, none, some, List, [],
  ◌∷◌, arith, if◌then◌else◌, In, length, leb,
}
use statefuse.Base.Order.{string_key}
use statefuse.Result.{Result, ok, >>=-eq-ok, ok-injective}
use statefuse.Host.{Host}
use statefuse.Model.Claim.{Claim}
use statefuse.Model.ClaimKey.{ClaimKey}
use statefuse.Conflict.{PredicateRegistry, is_multi_valued}
use statefuse.Conflict.Identity.{ConflictSet}
use statefuse.Conflict.Classify.{Records}
use statefuse.Conflict.Direct.{
  combinations, is_incompatible, incompatible_pairs, conflict_of, conflict_at, conflict_from,
}
use statefuse.Conflict.Direct.Scan.{
  In-combinations, In-select_if, In-participants, In-by_id, In-conflict_of, Clash, by_id,
}

not_skipped :
    {B : Type 0} (skip : Bool) (rest : Result (Option B)) {b : B}
    → (if skip then ok none else rest) ≡ ok (some b)
    → rest ≡ ok (some b)
not_skipped true rest e = absurd cc
not_skipped false rest e = e

skipped :
    {B : Type 0} (skip : Bool) (rest : Result (Option B))
    → (if skip then ok none else rest) ≡ ok none
    → (skip ≡ true) ⊎ (rest ≡ ok none)
skipped true rest e = inl refl
skipped false rest e = inr e

short_combinations :
    (p : Claim × Claim) (l : List Claim) → leb (length l) 1 ≡ true → ¬ In p (combinations l)
unfolding combinations
short_combinations p [] h k = k
short_combinations p (x ∷ []) h k = k
short_combinations p (x ∷ y ∷ l) h k = ground (arith, h)

module _ (h : Host) (r : PredicateRegistry) (records : Records) (key : ClaimKey)
    (active : List Claim) where
  from_pairs :
      (pairs : List (Claim × Claim)) {c : ConflictSet}
      → conflict_from h r records key (by_id active) pairs ≡ ok (some c)
      → conflict_of h r records key (by_id active) pairs ≡ ok c
  unfolding conflict_from
  from_pairs [] e = absurd cc
  from_pairs (p ∷ pairs) e =
      let (c, made, same) =
        >>=-eq-ok (conflict_of h r records key (by_id active) (p ∷ pairs)) _ e in
      made ∙ ap_ok (ok-injective same)
    where
      ap_ok : {a b : ConflictSet} → some a ≡ some b → ok a ≡ ok b
      ap_ok e = cc

  no_pairs :
      (pairs : List (Claim × Claim))
      → conflict_from h r records key (by_id active) pairs ≡ ok none
      → (p : Claim × Claim) → ¬ In p pairs
  unfolding conflict_from
  no_pairs [] e p k = k
  no_pairs (q ∷ pairs) e p k =
      let (c, made, same) =
        >>=-eq-ok (conflict_of h r records key (by_id active) (q ∷ pairs)) _ e in
      let no : ok (some c) ≡ ok none = same in absurd cc

  -- If the scan of a key whose active claims have distinct identifiers returns a conflict, its
  -- candidates are exactly the claims that are incompatible with another one: their values differ,
  -- and their contexts and intervals overlap.
  pub conflict_at-candidates :
      (c : ConflictSet)
      → ((x y : Claim) → In x active → In y active → x.claim_id ≡ y.claim_id → x ≡ y)
      → conflict_at h r records key active ≡ ok (some c)
      → (x : Claim)
      → In x c.candidates ↔ (
          (y : Claim) × (Clash h r key.predicate (by_id active) x y
            ⊎ Clash h r key.predicate (by_id active) y x))
  unfolding conflict_at incompatible_pairs
  conflict_at-candidates c once e x =
      let rest =
        not_skipped (leb (length (by_id active)) 1 || is_multi_valued r key.predicate) _ e in
      let (pairs, found, from) =
        >>=-eq-ok (incompatible_pairs h r key.predicate (by_id active)) _ rest in
      let made = from_pairs pairs from in
      let candidate = In-conflict_of h r records key (by_id active) pairs made x in
      let named = In-participants x.claim_id pairs in
      (
        λ k.
            let (a, b, p, which) = named.0 (candidate.0 k).1 in
            partner pairs found ((In-by_id x active).0 (candidate.0 k).0) a b p which,
        λ (y, clash). candidate.1 (elim clash [
          | inl first ↦ (
            (In-combinations x y (by_id active) first.0).0,
            named.1 (x, y, (kept pairs found x y).1 first, inl refl),
          )
          | inr second ↦ (
            (In-combinations y x (by_id active) second.0).1,
            named.1 (y, x, (kept pairs found y x).1 second, inr refl),
          )
        ]),
      )
    where
      kept :
          (pairs : List (Claim × Claim))
          → incompatible_pairs h r key.predicate (by_id active) ≡ ok pairs
          → (a b : Claim) → In (a, b) pairs ↔ Clash h r key.predicate (by_id active) a b
      kept pairs found a b = In-select_if (is_incompatible h r key.predicate) _ found (a, b)

      partner :
          (pairs : List (Claim × Claim))
          → incompatible_pairs h r key.predicate (by_id active) ≡ ok pairs
          → In x active
          → (a b : Claim) → In (a, b) pairs
          → (a.claim_id ≡ x.claim_id) ⊎ (b.claim_id ≡ x.claim_id)
          → (y : Claim) × (Clash h r key.predicate (by_id active) x y
              ⊎ Clash h r key.predicate (by_id active) y x)
      partner pairs found inside a b p which =
          let clash = (kept pairs found a b).0 p in
          let (in_a, in_b) = In-combinations a b (by_id active) clash.0 in
          elim which [
            | inl same ↦ (
              b,
              inl (
                  subst (λ z. Clash h r key.predicate (by_id active) z b)
                    (once a x ((In-by_id a active).0 in_a) inside same) clash),
            )
            | inr same ↦ (
              a,
              inr (
                  subst (λ z. Clash h r key.predicate (by_id active) a z)
                    (once b x ((In-by_id b active).0 in_b) inside same) clash),
            )
          ]

  -- If the scan of a key whose predicate has one value returns no conflict, no two of its active
  -- claims are incompatible.
  pub conflict_at-none :
      conflict_at h r records key active ≡ ok none
      → is_multi_valued r key.predicate ≡ false
      → (x y : Claim) → ¬ Clash h r key.predicate (by_id active) x y
  unfolding conflict_at incompatible_pairs
  conflict_at-none e single x y clash =
      elim (skipped (leb (length (by_id active)) 1 || is_multi_valued r key.predicate) _ e) [
        | inl skip ↦ short_combinations (x, y) (by_id active) (ground (arith, skip, single)) clash.0
        | inr rest ↦
            let (pairs, found, from) =
              >>=-eq-ok (incompatible_pairs h r key.predicate (by_id active)) _ rest in
            no_pairs pairs from (x, y)
              ((In-select_if (is_incompatible h r key.predicate) _ found (x, y)).1 clash)
      ]
