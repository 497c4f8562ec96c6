-- ===== src/Ops/Retraction.antt =====
-- `ClaimRetracted` of ops.py: it withdraws a claim by its identifier or by its reference.
use statefuse.Base.{String, not, ◌&&◌, ◌||◌, Option, List, [], ◌∷◌, is_some}
use statefuse.Json.{str, arr, opt_str, strings}
use statefuse.Result.{Result, ok, value_error, raise_if, ◌>>=◌, ◌>>◌}
use statefuse.Model.Access.{Payload, required_string, optional_string, list_of_str}

pub record ClaimRetracted : Type 0 where
  pub target_claim_id : Option String
  pub target_claim_ref : Option String
  pub evidence_ids : List String
  pub reason : String
  pub supersedes_claim_id : Option String
  pub supersedes_claim_ref : Option String
  pub signing_key_id : Option String
  pub signature : Option String

unfoldable pub post_init : ClaimRetracted → Result ClaimRetracted
post_init r = do
  raise_if (not (is_some r.target_claim_id) && not (is_some r.target_claim_ref))
      (value_error "ClaimRetracted requires target_claim_id or target_claim_ref.")
  raise_if
      ((is_some r.signing_key_id && not (is_some r.signature))
        || (not (is_some r.signing_key_id) && is_some r.signature))
      (value_error "signing_key_id and signature must be provided together.")
  ok r

unfoldable pub to_dict : ClaimRetracted → Payload
to_dict r =
    ("target_claim_id", opt_str r.target_claim_id)
    ∷ ("target_claim_ref", opt_str r.target_claim_ref)
    ∷ ("evidence_ids", arr (strings r.evidence_ids))
    ∷ ("reason", str r.reason)
    ∷ ("supersedes_claim_id", opt_str r.supersedes_claim_id)
    ∷ ("supersedes_claim_ref", opt_str r.supersedes_claim_ref)
    ∷ ("signing_key_id", opt_str r.signing_key_id)
    ∷ ("signature", opt_str r.signature)
    ∷ []

unfoldable pub from_dict : Payload → Result ClaimRetracted
unfolding required_string optional_string list_of_str
from_dict payload = do
  target_claim_id ← optional_string payload "target_claim_id"
  target_claim_ref ← optional_string payload "target_claim_ref"
  evidence_ids ← list_of_str payload "evidence_ids"
  reason ← required_string payload "reason"
  supersedes_claim_id ← optional_string payload "supersedes_claim_id"
  supersedes_claim_ref ← optional_string payload "supersedes_claim_ref"
  signing_key_id ← optional_string payload "signing_key_id"
  signature ← optional_string payload "signature"
  post_init (record {
    target_claim_id = target_claim_id;
    target_claim_ref = target_claim_ref;
    evidence_ids = evidence_ids;
    reason = reason;
    supersedes_claim_id = supersedes_claim_id;
    supersedes_claim_ref = supersedes_claim_ref;
    signing_key_id = signing_key_id;
    signature = signature;
  })
