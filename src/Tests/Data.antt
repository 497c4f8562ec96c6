-- ===== src/Tests/Data.antt =====
-- A host whose digests are fixed texts, and small logs.
use Prim.Native.String.{◌++◌ as str_append}
use text.Mathlib.Text.{◌==◌}
use statefuse.Base.{String, ◌≡◌, refl, Option, none, some, [], ◌∷◌, arith, if◌then◌else◌, eq_iff}
use statefuse.Base.Int.{ℤ, pos}
use statefuse.Base.Dict.{get}
use statefuse.Base.Order.{string_key}
use statefuse.Json.{Json, float, str}
use statefuse.Host.{Host}
use statefuse.Model.Claim.{Claim}
use statefuse.Ops.Retraction.{ClaimRetracted}
use statefuse.Ops.{Op, claim_retracted}
use statefuse.OpLog.{OpLog, IsLog}

abbrev pub text_of : Json → String
text_of (str s) = s
text_of _ = "?"

abbrev pub number_of : Json → Option ℤ
number_of (float x) = some x
number_of _ = none

abbrev pub host : Host
host = record {
  instant = λ s. if s == "" then none else some 1;
  timestamp = λ t. t;
  digest_json_value = λ v. "digest";
  hmac = λ secret v. str_append "mac of " secret;
  to_str = text_of;
  to_float = number_of;
}

abbrev pub retracts : String → ClaimRetracted
retracts claim = record {
  target_claim_id = some claim;
  target_claim_ref = none;
  evidence_ids = [];
  reason = "outdated";
  supersedes_claim_id = none;
  supersedes_claim_ref = none;
  signing_key_id = none;
  signature = none;
}

abbrev pub retraction : String → String → Op
retraction id claim = record {
  op_id = id;
  replica_id = "alpha";
  timestamp = "2024-01-01T00:00:00Z";
  body = claim_retracted (retracts claim);
}

abbrev pub log_of : Op → OpLog
log_of op = (op.op_id, op) ∷ []

pub log_of-IsLog : (op : Op) → IsLog (log_of op)
unfolding get
log_of-IsLog op = record { is_dict = (refl, tt); keyed = λ id x there. stored id x there }
  where
    stored : (id : String) (x : Op) → get id (log_of op) ≡ some x → x.op_id ≡ id
    stored id x there = ground (arith, there, eq_iff op.op_id id)

abbrev pub one : Op
one = retraction "op-1" "claim-1"

abbrev pub two : Op
two = retraction "op-2" "claim-2"

abbrev pub one_two : OpLog
one_two = ("op-1", one) ∷ ("op-2", two) ∷ []

abbrev pub one_other : Op
one_other = retraction "op-1" "claim-9"

abbrev pub three : Op
three = retraction "op-3" "claim-3"

abbrev pub claim : Claim
claim = record {
  claim_id = "claim-1";
  key = record { namespace = "billing"; subject = "invoice-7"; predicate = "status" };
  value = str "paid";
  confidence = pos 900000;
  timestamp = "2024-01-01T00:00:00Z";
  claim_ref = "sha256:digest";
  evidence_ids = "evidence-1" ∷ [];
  provenance = [];
  validity = none;
  derivation_id = none;
  kind = "fact";
  context = ("region", str "eu") ∷ [];
}
