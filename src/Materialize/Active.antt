-- ===== src/Materialize/Active.antt =====
-- `materialize`, after its first loop: the claims that are retracted, and the active ones by key.
pub mod Exact
use statefuse.Base.{
  String, Bool, true, false, Option, none, some, List, [], ◌∷◌, ◌++◌, if◌then◌else◌,
}
use statefuse.Base.Dict.{Dict, keys}
use statefuse.Base.Order.{string_key}
use statefuse.Base.Sorted.{contains, sorted_by}
use statefuse.Base.Groups.{group, append_to, sorted_items}
use statefuse.Result.{Result, ok, ◌>>=◌}
use statefuse.Host.{Host}
use statefuse.Model.Access.{Payload}
use statefuse.Model.ClaimKey.{ClaimKey, claim_key_key}
use statefuse.Model.Claim.{Claim}
use statefuse.Conflict.Overlap.{claim_applies}
use statefuse.Materialize.Facts.{Facts}

-- The members of the groups of some references.
unfoldable pub members_of : Dict String (List String) → List String → List String
unfolding group
members_of ids [] = []
members_of ids (ref ∷ refs) = group ref ids ++ members_of ids refs

-- `inactive_claim_ids`, a set
unfoldable pub inactive_claim_ids : Facts → List String
unfolding members_of
inactive_claim_ids f =
    keys f.retractions_by_target ++ members_of f.claim_ids_by_ref (keys f.retractions_by_target_ref)

-- What is asked of a claim, as of when and in which context.
pub record Scope : Type 0 where
  pub valid_at : Option String
  pub context : Option Payload

-- `active_claims_by_key_raw` and `inapplicable_claim_ids`
pub record Split : Type 0 where
  pub active : Dict ClaimKey (List Claim)
  pub inapplicable : List String

unfoldable pub file_claim : Claim → Split → Bool → Split
unfolding append_to
file_claim c s true = record s { active = append_to c.key c s.active }
file_claim c s false = record s { inapplicable = s.inapplicable ++ c.claim_id ∷ [] }

-- A round of the loop over the claims.
unfoldable pub split_claim : Host → List String → Scope → Split → String → Claim → Result Split
unfolding contains file_claim claim_applies
split_claim h inactive scope s id c =
    if contains id inactive
    then ok s
    else (do applies ← claim_applies h c scope.valid_at scope.context; ok (file_claim c s applies))

unfoldable pub split_claims : Host → List String → Scope → Split → Dict String Claim → Result Split
unfolding split_claim
split_claims h inactive scope s [] = ok s
split_claims h inactive scope s ((id, c) ∷ claims) = do
  next ← split_claim h inactive scope s id c
  split_claims h inactive scope next claims

-- Each key's claims in the order of their identifiers, in the order of the keys.
unfoldable pub active_claims_by_key : Split → Dict ClaimKey (List Claim)
unfolding sorted_items sorted_by
active_claims_by_key s = sorted_items (sorted_by (λ c. c.claim_id)) s.active
