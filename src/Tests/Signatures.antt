-- ===== src/Tests/Signatures.antt =====
-- The theorems on signatures and on authenticated merges at one signed claim.
use statefuse.Base.{
  String, ◌≡◌, ◌≢◌, refl, Bool, true, false, Option, none, some, List, [], ◌∷◌, length, eq_iff, All,
  In, inl, subst, sym, arith,
}
use statefuse.Base.Dict.{Dict, get, or_else}
use statefuse.Base.Order.{string_key}
use statefuse.Json.{str}
use statefuse.Result.{ok, raise}
use statefuse.Host.{Host}
use statefuse.Model.Claim.{Claim}
use statefuse.Ops.{Op, claim_added}
use statefuse.OpLog.{OpLog, IsLog, iter_ops}
use statefuse.OpLog.Lookup.{find}
use statefuse.Auth.{
  verified, sign_claim, claim_signature_status, sign_retraction, retraction_signature_status,
  is_ascii, not_ascii, text_value, signature_digest, signature_payload,
}
use statefuse.Auth.Verify.{sign_claim_verified, sign_retraction_verified}
use statefuse.Merge.{MergeReport}
use statefuse.Merge.Rounds.{accounted, added_to, duplicates_in}
use statefuse.Merge.Auth.{Policy, merge_checked_authenticated, is_revoked, key_id_of}
use statefuse.Merge.Auth.Taken.{accepted, refused_by}
use statefuse.Merge.Auth.Sound.{authenticated_claims}
use statefuse.Merge.Auth.Total.{GivesAscii, IsComparable, merge_checked_authenticated_total}
use statefuse.Merge.Auth.Raises.{merge_checked_authenticated_raises}
use statefuse.Tests.Data.{host, claim, one, log_of, log_of-IsLog, retracts}

abbrev secrets : Dict String String
secrets = ("key-1", "secret") ∷ []

sign_claim_verified_example :
    claim_signature_status host (sign_claim host claim "secret" "key-1") secrets ≡ ok verified
unfolding get signature_digest is_ascii
sign_claim_verified_example =
    sign_claim_verified host "secret" "key-1" secrets claim refl (λ e. cc) (λ d e. cc) (λ d. refl)

sign_retraction_verified_example :
    retraction_signature_status host one
      (sign_retraction host one (retracts "claim-1") "secret" "key-1")
      secrets
    ≡ ok verified
unfolding get signature_digest is_ascii
sign_retraction_verified_example =
    sign_retraction_verified host "secret" "key-1" secrets one (retracts "claim-1") refl (λ e. cc)
      (λ d e. cc) (λ d. refl)

abbrev signed : Claim
signed = record claim {
  provenance = ("signing_key_id", str "key-1") ∷ ("signature", str "mac of secret") ∷ [];
}

abbrev signed_op : Op
signed_op = record {
  op_id = "op-5";
  replica_id = "beta";
  timestamp = "2024-01-01T00:00:00Z";
  body = claim_added signed;
}

abbrev policy : Policy
policy = record {
  key_secrets = secrets;
  revoked_keys = "key-0" ∷ [];
  require_signed = true;
  require_valid_timestamps = true;
}

abbrev report : MergeReport
report = record {
  merged = ("op-1", one) ∷ ("op-5", signed_op) ∷ [];
  added_op_ids = "op-5" ∷ [];
  duplicate_op_ids = [];
  quarantined = [];
}

authenticated : merge_checked_authenticated host policy (log_of one) (log_of signed_op) ≡ ok report
unfolding merge_checked_authenticated statefuse.OpLog.from_ops statefuse.OpLog.add_all
    statefuse.Base.Sorted.in_order statefuse.Base.Sorted.select statefuse.Base.Sorted.sorted get
    statefuse.OpLog.add statefuse.Merge.Auth.authenticated_reason claim_signature_status
    statefuse.Merge.receive statefuse.Base.Dict.put
authenticated = refl

authenticated_claims_example :
    (k : String) × (secret : String) × (text_value (get "signing_key_id" signed.provenance)
      ≡ some k)
    × (get k secrets ≡ some secret)
    × (text_value (get "signature" signed.provenance)
        ≡ some (signature_digest host (signature_payload signed) secret))
    × (is_revoked (key_id_of host (get "signing_key_id" signed.provenance)) policy.revoked_keys
        ≡ false)
unfolding get
authenticated_claims_example =
    authenticated_claims host policy (log_of one) (log_of signed_op) report "op-5" signed_op signed
      (log_of-IsLog one) authenticated refl refl refl refl

-- A host whose digests are one text.
abbrev hex_host : Host
hex_host = record host { hmac = λ secret v. "00ff" }

hex_host-GivesAscii : GivesAscii hex_host
unfolding is_ascii
hex_host-GivesAscii secret v = refl

incoming : iter_ops (log_of signed_op) ≡ signed_op ∷ []
unfolding statefuse.Base.Sorted.in_order statefuse.Base.Sorted.select statefuse.Base.Sorted.sorted
    get
incoming = refl

signed_op-IsComparable : IsComparable signed_op
unfolding get is_ascii
signed_op-IsComparable s e =
    let same : "mac of secret" ≡ s = ground (arith, e) in subst (λ x. is_ascii x ≡ true) same refl

merge_checked_authenticated_total_example :
    (r : MergeReport) × (merge_checked_authenticated hex_host policy (log_of one) (log_of signed_op)
      ≡ ok r)
    × ((id : String)
        → get id r.merged
          ≡ or_else
              (get id (log_of one))
              (find id (accepted hex_host policy (iter_ops (log_of signed_op)))))
    × (accounted r ≡ length (iter_ops (log_of signed_op)))
    × (r.added_op_ids
        ≡ added_to (log_of one) (accepted hex_host policy (iter_ops (log_of signed_op))))
    × (r.duplicate_op_ids
        ≡ duplicates_in (log_of one) (accepted hex_host policy (iter_ops (log_of signed_op))))
    × (r.quarantined ≡ refused_by hex_host policy (log_of one) (iter_ops (log_of signed_op)))
merge_checked_authenticated_total_example =
    merge_checked_authenticated_total hex_host policy (log_of one) (log_of signed_op)
      (log_of-IsLog one) (log_of-IsLog signed_op) hex_host-GivesAscii
      (subst (All IsComparable) (sym incoming) (signed_op-IsComparable, tt))

-- The same claim with a signature that is not ASCII.
abbrev accented : Claim
accented = record claim {
  provenance = ("signing_key_id", str "key-1") ∷ ("signature", str "é") ∷ [];
}

abbrev accented_op : Op
accented_op = record signed_op { body = claim_added accented }

accented-In : In accented_op (iter_ops (log_of accented_op))
unfolding statefuse.Base.Sorted.in_order statefuse.Base.Sorted.select statefuse.Base.Sorted.sorted
    get
accented-In = inl refl

merge_checked_authenticated_raises_example :
    merge_checked_authenticated host policy (log_of one) (log_of accented_op) ≡ raise not_ascii
unfolding get is_ascii statefuse.Merge.Auth.body_times_parse statefuse.Base.Sorted.contains
    statefuse.Merge.Auth.key_id_of
merge_checked_authenticated_raises_example =
    merge_checked_authenticated_raises host policy (log_of one) (log_of accented_op) accented_op
      accented "key-1" "é" "secret" (log_of-IsLog one) accented-In refl refl refl refl refl refl
      refl
