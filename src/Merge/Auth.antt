-- ===== src/Merge/Auth.antt =====
-- `merge_checked_authenticated` of merge.py: a checked merge that also quarantines operations whose
-- times do not parse, whose keys are revoked or whose signatures do not hold.
pub mod Taken
pub mod Sound
pub mod Total
pub mod Raises
use Prim.Native.String.{◌++◌ as str_append}
use text.Mathlib.Text.{◌==◌}
use statefuse.Base.{
  String, Bool, true, false, not, ◌&&◌, ◌||◌, Option, none, some, List, [], ◌∷◌, ◌++◌,
  if◌then◌else◌,
}
use statefuse.Base.{◌==◌ as nat_eq}
use statefuse.Base.Int.{ℤ, pos, negsuc}
use statefuse.Base.Dict.{Dict, get}
use statefuse.Base.Order.{string_key}
use statefuse.Base.Sorted.{contains}
use statefuse.Json.{Json, null, boolean, int, float, str, arr, obj, nil, cons, end, field}
use statefuse.Result.{Result, ok, ◌>>=◌}
use statefuse.Host.{Host}
use statefuse.Model.Claim.{Claim}
use statefuse.Ops.Retraction.{ClaimRetracted}
use statefuse.Ops.{
  Op, Body, claim_added, claim_retracted, resolution_added, conflict_lifecycle_event_added,
}
use statefuse.Auth.{
  Status, verified, invalid, missing, unknown_key, status_text, claim_signature_status,
  retraction_signature_status,
}
use statefuse.OpLog.{OpLog, from_ops, iter_ops}
use statefuse.Merge.{MergeReport, QuarantinedOp, empty_report, receive}

-- The keyword arguments of the policy.
pub record Policy : Type 0 where
  pub key_secrets : Dict String String
  pub revoked_keys : List String
  pub require_signed : Bool
  pub require_valid_timestamps : Bool

abbrev pub is_zero : ℤ → Bool
is_zero (pos n) = nat_eq n 0
is_zero (negsuc n) = false

-- `bool(value)`
abbrev pub truthy : Json → Bool
truthy null = false
truthy (boolean b) = b
truthy (int n) = not (is_zero n)
truthy (float x) = not (is_zero x)
truthy (str s) = not (s == "")
truthy (arr nil) = false
truthy (arr _) = true
truthy (obj end) = false
truthy (obj _) = true

-- `str(provenance.get("signing_key_id", "") or "")`
unfoldable pub key_id_of : Host → Option Json → String
key_id_of h none = h.to_str (str "")
key_id_of h (some v) = if truthy v then h.to_str v else h.to_str (str "")

abbrev pub parses : Host → String → Bool
parses h s = elim (h.instant s) [ none ↦ false | some t ↦ true ]

-- The times in what an operation carries that must parse.
unfoldable pub body_times_parse : Host → Body → Bool
body_times_parse h (claim_added c) = parses h c.timestamp
body_times_parse h (resolution_added r) = parses h r.timestamp
body_times_parse h (conflict_lifecycle_event_added e) = parses h e.timestamp
body_times_parse h _ = true

abbrev pub is_verified : Status → Bool
is_verified verified = true
is_verified _ = false

abbrev pub is_invalid : Status → Bool
is_invalid invalid = true
is_invalid _ = false

-- The two tests of a signature, with the reason of a refusal.
unfoldable pub signature_reason : String → Bool → Status → Option String
unfolding status_text
signature_reason prefix require_signed status =
    if require_signed && not (is_verified status)
    then some (str_append prefix (status_text status))
    else if not require_signed && is_invalid status
    then some (str_append prefix "invalid")
    else none

-- `key_id and key_id in revoked_keys`
abbrev pub is_revoked : String → List String → Bool
is_revoked key_id revoked = not (key_id == "") && contains key_id revoked

unfoldable pub claim_reason : Host → Policy → Claim → Result (Option String)
unfolding signature_reason key_id_of contains
claim_reason h p c =
    if is_revoked (key_id_of h (get "signing_key_id" c.provenance)) p.revoked_keys
    then ok (some "claim_signature_revoked")
    else (do
      status ← claim_signature_status h c p.key_secrets
      ok (signature_reason "claim_signature_" p.require_signed status))

abbrev pub text_or_empty : Option String → String
text_or_empty none = ""
text_or_empty (some s) = s

unfoldable pub retraction_reason : Host → Policy → Op → ClaimRetracted → Result (Option String)
unfolding signature_reason contains
retraction_reason h p op x =
    if is_revoked (text_or_empty x.signing_key_id) p.revoked_keys
    then ok (some "retraction_signature_revoked")
    else (do
      status ← retraction_signature_status h op x p.key_secrets
      ok (signature_reason "retraction_signature_" p.require_signed status))

-- The end of `_authenticated_reason`, by the class of the operation.
unfoldable pub body_reason : Host → Policy → Op → Body → Result (Option String)
unfolding claim_reason retraction_reason
body_reason h p op (claim_added c) = claim_reason h p c
body_reason h p op (claim_retracted x) = retraction_reason h p op x
body_reason h p op (resolution_added r) =
    ok (if p.require_signed then some "authority_signature_unsupported" else none)
body_reason h p op (conflict_lifecycle_event_added e) =
    ok (if p.require_signed then some "authority_signature_unsupported" else none)
body_reason h p op _ = ok none

-- The check of the times is inside a `try`; what the comparison of a signature raises is not caught.
unfoldable pub authenticated_reason : Host → Policy → Op → Result (Option String)
unfolding body_times_parse body_reason
authenticated_reason h p op =
    if p.require_valid_timestamps && not (parses h op.timestamp && body_times_parse h op.body)
    then ok (some "invalid_timestamp")
    else body_reason h p op op.body

abbrev pub unauthenticated : Op → String → QuarantinedOp
unauthenticated op reason = record {
  op_id = op.op_id;
  kept_op = op;
  rejected_op = op;
  reason = reason;
}

-- A round of the loop, when the reason is known.
unfoldable pub receive_judged : MergeReport → Op → Option String → Result MergeReport
unfolding receive
receive_judged r op (some reason) =
    ok (record r { quarantined = r.quarantined ++ unauthenticated op reason ∷ [] })
receive_judged r op none = receive r op

unfoldable pub receive_authenticated : Host → Policy → MergeReport → List Op → Result MergeReport
unfolding authenticated_reason receive_judged
receive_authenticated h p r [] = ok r
receive_authenticated h p r (op ∷ ops) = do
  reason ← authenticated_reason h p op
  next ← receive_judged r op reason
  receive_authenticated h p next ops

unfoldable pub merge_checked_authenticated : Host → Policy → OpLog → OpLog → Result MergeReport
unfolding receive_authenticated
merge_checked_authenticated h p a b = do
  merged ← from_ops (iter_ops a)
  receive_authenticated h p (empty_report merged) (iter_ops b)
