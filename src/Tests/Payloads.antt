-- ===== src/Tests/Payloads.antt =====
-- The theorems on payloads at one claim and one resolution.
use statefuse.Base.{String, ◌≡◌, refl, Bool, true, false, Option, none, some, List, [], ◌∷◌, arith}
use statefuse.Base.Int.{pos}
use statefuse.Result.{ok}
use statefuse.Json.{json_eq, boolean, float, int, null, obj, str, field, end}
use statefuse.Model.Claim
use statefuse.Model.Claim.{Claim, IsClaim, from_dict-to_dict_claim}
use statefuse.Model.Resolution
use statefuse.Model.Resolution.{ResolutionRecord}
use statefuse.Model.Resolution.RoundTrip.{from_dict-to_dict_resolution}
use statefuse.Ops
use statefuse.Ops.{Op, claim_added, resolution_added}
use statefuse.Ops.RoundTrip.{from_dict-to_dict_op}
use statefuse.Tests.Data.{host, claim, one}

claim-IsClaim : IsClaim host claim
unfolding Claim.post_init
claim-IsClaim = record { accepted = refl; interval = λ v e. cc }

from_dict-to_dict_claim_example : Claim.from_dict host (Claim.to_dict claim) ≡ ok claim
from_dict-to_dict_claim_example =
    from_dict-to_dict_claim host claim (λ s. refl) (λ x. refl) claim-IsClaim

abbrev given : ResolutionRecord
given = record {
  resolution_id = "resolution-1";
  conflict_ref = "conflict-1";
  observed_conflict_id = "conflict-1";
  selected_claim_ids = "claim-2" ∷ [];
  rejected_claim_ids = "claim-3" ∷ "claim-1" ∷ [];
  retained_claim_ids = [];
  resolution_type = "manual";
  reason = "newer invoice";
  evidence_ids = [];
  actor_id = "auditor";
  timestamp = "2024-01-01T00:00:00Z";
  scope = none;
  valid_from = none;
  valid_until = none;
  metadata = [];
  outcome = "select";
}

abbrev resolution : ResolutionRecord
resolution = record given { rejected_claim_ids = "claim-1" ∷ "claim-3" ∷ [] }

resolution_made : Resolution.post_init host given ≡ ok resolution
unfolding Resolution.post_init statefuse.Base.Sorted.sorted statefuse.Base.Order.str_leb
resolution_made = refl

from_dict-to_dict_resolution_example :
    Resolution.from_dict host (Resolution.to_dict resolution) ≡ ok resolution
from_dict-to_dict_resolution_example =
    from_dict-to_dict_resolution host given resolution (λ s. refl) resolution_made

abbrev claimed : Op
claimed = record one { body = claim_added claim }

from_dict-to_dict_op_example : Ops.from_dict host (Ops.to_dict claimed) ≡ ok claimed
from_dict-to_dict_op_example =
    from_dict-to_dict_op host (λ s. refl) (λ x. refl) claimed claim-IsClaim

-- `True == 1.0`, and an object forgets the order of its fields.
json_eq-true_one : json_eq (boolean true) (float (pos 1000000)) ≡ true
unfolding json_eq
json_eq-true_one = refl

json_eq_fields :
    json_eq
      (obj (field "a" (int (pos 1)) (field "b" null end)))
      (obj (field "b" null (field "a" (int (pos 1)) end)))
    ≡ true
unfolding json_eq statefuse.Base.Order.str_leb
json_eq_fields = refl

json_eq_texts : json_eq (str "paid") (str "open") ≡ false
unfolding json_eq
json_eq_texts = refl
