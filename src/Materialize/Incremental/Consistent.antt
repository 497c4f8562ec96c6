-- ===== src/Materialize/Incremental/Consistent.antt =====
-- What the variables of the incremental loop have to do with each other, and the rounds that leave
-- claims and retractions alone.
use statefuse.Base.{
  String, ◌≡◌, refl, sym, ◌∙◌, ap, subst, true, false, ◌↔◌, some, List, [], ◌∷◌, In, is_some,
}
use statefuse.Base.Dict.{get}
use statefuse.Base.Order.{string_key}
use statefuse.Base.Sorted.{contains}
use statefuse.Base.Groups.{group}
use statefuse.Result.{Result, ok, ◌>>=◌, >>=-eq-ok, ok-injective}
use statefuse.Model.ClaimKey.{ClaimKey, claim_key_key}
use statefuse.Model.Claim.{Claim}
use statefuse.Materialize.Active.{inactive_claim_ids}
use statefuse.Materialize.Incremental.{Working, mark, mark_source}

-- The inactive claims are those of the retractions that are stored, as `materialize` finds them;
-- what stands under a reference is stored, each claim under its identifier; and the active claims
-- of a key are the stored claims with that key that are not inactive.
pub record IsConsistent (w : Working) : Type 0 where
  pub inactive : (id : String) → contains id w.inactive ≡ contains id (inactive_claim_ids w.facts)
  pub filed :
      (ref id : String)
      → contains id (group ref w.facts.claim_ids_by_ref) ≡ true
      → is_some (get id w.facts.claims_by_id) ≡ true
  pub keyed : (id : String) (c : Claim) → get id w.facts.claims_by_id ≡ some c → c.claim_id ≡ id
  pub active :
      (c : Claim) (key : ClaimKey)
      → In c (group key w.active) ↔ (
          (get c.claim_id w.facts.claims_by_id ≡ some c)
          × (c.key ≡ key)
          × (contains c.claim_id w.inactive ≡ false))

-- The two agree on claims, retractions and the active claims.
abbrev pub Same : Working → Working → Type 0
Same v w =
    (v.facts.claims_by_id ≡ w.facts.claims_by_id)
    × (v.facts.claim_ids_by_ref ≡ w.facts.claim_ids_by_ref)
    × (v.facts.retractions_by_target ≡ w.facts.retractions_by_target)
    × (v.facts.retractions_by_target_ref ≡ w.facts.retractions_by_target_ref)
    × (v.inactive ≡ w.inactive)
    × (v.active ≡ w.active)

abbrev pub same : (w : Working) → Same w w
same w = (refl, refl, refl, refl, refl, refl)

pub Same-IsConsistent : (v w : Working) → Same v w → IsConsistent v → IsConsistent w
unfolding inactive_claim_ids
Same-IsConsistent v w (claims, refs, by_target, by_target_ref, inactive, active) c = record {
  inactive = λ id. rw (sym inactive, sym by_target, sym by_target_ref, sym refs) (c.inactive id);
  filed = λ ref id there.
      ap (λ d. is_some (get id d)) (sym claims)
      ∙ c.filed ref id (ap (λ d. contains id (group ref d)) refs ∙ there);
  keyed = λ id x there. c.keyed id x (ap (get id) claims ∙ there);
  active = λ x key. rw (sym claims, sym inactive, sym active) (c.active x key);
}

-- The rounds that mark affected keys.
pub mark_source-Same : (ids : List String) (w : Working) → Same w (mark_source ids w)
unfolding mark_source
mark_source-Same [] w = same w
mark_source-Same (id ∷ ids) w =
    mark_source-Same ids (record w { affected = mark (group id w.claims_of_evidence) w })

-- A result that is made from a value, whatever the value.
pub each-Same :
    {V : Type 0} (v : Working) (m : Result V) (next : V → Working) {w : Working}
    → ((x : V) → Same v (next x))
    → (m >>= λ x. ok (next x)) ≡ ok w
    → Same v w
each-Same v m next all done =
    let (x, _, made) = >>=-eq-ok m (λ x. ok (next x)) done in
    subst (Same v) (ok-injective made) (all x)
