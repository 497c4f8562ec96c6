-- ===== src/Tests/States.antt =====
-- The theorems on the materialised state, at concrete inputs.
use statefuse.Base.{
  String, ◌≡◌, refl, Bool, true, false, ◌↔◌, Option, none, some, List, [], ◌∷◌, In, if◌then◌else◌,
}
use statefuse.Base.Dict.{get}
use statefuse.Base.Order.{string_key, pair_key, option_key, ◌==◌}
use statefuse.Base.Groups.{group}
use statefuse.Result.{ok}
use statefuse.Ops.{Op, claim_added}
use statefuse.OpLog.{OpLog, iter_ops}
use statefuse.Model.ClaimKey.{claim_key_key}
use statefuse.Model.Claim.{Claim}
use statefuse.Conflict.{PredicateRegistry}
use statefuse.Conflict.Overlap.{claim_applies}
use statefuse.Materialize.Facts.{Facts, no_facts}
use statefuse.Materialize.Facts.Log.{AddedBy, is_withdrawn}
use statefuse.Materialize.Active.{Scope, Split}
use statefuse.Materialize.Lifecycle.{no_fold}
use statefuse.Materialize.State.{MemoryState, state_of, materialize}
use statefuse.Materialize.State.ActiveClaims.{materialize_active, materialize_claims}
use statefuse.Tests.Data.{host, claim, two}

abbrev pub rules : PredicateRegistry
rules = record { rules = []; revision = 0 }

abbrev pub added : Op
added = record {
  op_id = "op-1";
  replica_id = "alpha";
  timestamp = "2024-01-01T00:00:00Z";
  body = claim_added claim;
}

abbrev log : OpLog
log = ("op-1", added) ∷ ("op-2", two) ∷ []

abbrev now : Scope
now = record { valid_at = none; context = none }

abbrev pub facts : Facts
facts = record no_facts {
  claims_by_id = ("claim-1", claim) ∷ [];
  claim_refs_by_id = ("claim-1", "sha256:digest") ∷ [];
  claim_ids_by_ref = ("sha256:digest", "claim-1" ∷ []) ∷ [];
  retractions_by_target = ("claim-2", two ∷ []) ∷ [];
}

abbrev pub split : Split
split = record { active = (claim.key, claim ∷ []) ∷ []; inapplicable = [] }

abbrev state : MemoryState
state = state_of rules facts split [] [] ([], []) ([], []) no_fold

made : materialize host rules [] now log ≡ ok state
unfolding materialize statefuse.Base.Sorted.in_order statefuse.Base.Sorted.select
    statefuse.Base.Sorted.sorted statefuse.Base.Order.str_leb get
    statefuse.Model.Claim.derive_claim_ref
made = refl

materialize_active_example : In claim (group claim.key state.active_claims) ↔ (
    (get "claim-1" state.claims_by_id ≡ some claim)
    × (claim.key ≡ claim.key)
    × (is_withdrawn host rules (iter_ops log) "claim-1" ≡ false)
    × (claim_applies host claim none none ≡ ok true))
materialize_active_example = materialize_active host rules [] now log claim claim.key made

stored : get "claim-1" state.claims_by_id ≡ some claim
unfolding get
stored = refl

materialize_claims_example : AddedBy claim (iter_ops log) × (claim.claim_id ≡ "claim-1")
materialize_claims_example = materialize_claims host rules [] now log "claim-1" claim made stored
