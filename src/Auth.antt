-- ===== src/Auth.antt =====
-- auth.py: signatures of claims and of retractions.
pub mod Verify
use Prim.Native.Char.{code}
use text.Mathlib.Text.{◌==◌}
use statefuse.Base.{
  String, Bool, true, false, ◌&&◌, Option, none, some, [], ◌∷◌, if◌then◌else◌, ltb,
}
use statefuse.Base.Dict.{Dict, get, put, pop}
use statefuse.Base.Order.{string_key}
use statefuse.Json.{Json, str, object}
use statefuse.Result.{Error, Result, ok, raise, type_error, ◌>>=◌}
use statefuse.Host.{Host}
use statefuse.Model.Access.{Payload}
use statefuse.Model.Claim
use statefuse.Model.Claim.{Claim}
use statefuse.Ops
use statefuse.Ops.{Op, claim_retracted}
use statefuse.Ops.Retraction.{ClaimRetracted}

-- The provenance without what the signature itself adds.
unfoldable pub unsigned_body : Payload → Payload
unfolding pop
unsigned_body provenance = pop "signing_key_id" (pop "signature" provenance)

unfoldable pub signature_payload : Claim → Payload
unfolding put unsigned_body
signature_payload c = put "provenance" (object (unsigned_body c.provenance)) (Claim.to_dict c)

unfoldable pub signature_digest : Host → Payload → String → String
signature_digest h payload secret = h.hmac secret (object payload)

unfoldable pub sign_claim : Host → Claim → String → String → Claim
sign_claim h c secret key_id =
    let provenance = put "signing_key_id" (str key_id) c.provenance in
    let unsigned = record c { provenance = provenance } in
    record c {
      provenance =
          put "signature" (str (signature_digest h (signature_payload unsigned) secret)) provenance;
    }

pub data Status : Type 0 where
  missing unknown_key verified invalid : Status

unfoldable pub status_text : Status → String
status_text missing = "missing"
status_text unknown_key = "unknown_key"
status_text verified = "verified"
status_text invalid = "invalid"

-- A value that is a text, and not the empty one.
abbrev pub text_value : Option Json → Option String
text_value (some (str s)) = if s == "" then none else some s
text_value _ = none

abbrev pub nonempty : Option String → Option String
nonempty none = none
nonempty (some s) = if s == "" then none else some s

-- Texts whose characters are all below 128.
unfoldable pub is_ascii : String → Bool
is_ascii String.[] = true
is_ascii (String.◌∷◌ c s) = let rest = is_ascii s in ltb (code c) 128 && rest

abbrev pub not_ascii : Error
not_ascii = type_error "comparing strings with non-ASCII characters is not supported"

-- `hmac.compare_digest` of two texts, which raises unless both are ASCII
unfoldable pub compare_digest : String → String → Result Bool
unfolding is_ascii
compare_digest a b = if is_ascii a && is_ascii b then ok (a == b) else raise not_ascii

-- The end of both checks. The digest is a function of the secret.
unfoldable pub check_signature :
    Option String → Option String → Dict String String → (String → String) → Result Status
unfolding get compare_digest
check_signature none signature key_secrets digest = ok missing
check_signature (some key_id) none key_secrets digest = ok missing
check_signature (some key_id) (some signature) key_secrets digest = elim (get key_id key_secrets) [
  | none ↦ ok unknown_key
  | some secret ↦ do
    same ← compare_digest signature (digest secret)
    ok (if same then verified else invalid)
]

unfoldable pub claim_signature_status : Host → Claim → Dict String String → Result Status
unfolding check_signature signature_digest
claim_signature_status h c key_secrets =
    check_signature (text_value (get "signing_key_id" c.provenance))
      (text_value (get "signature" c.provenance)) key_secrets
      λ secret. signature_digest h (signature_payload c) secret

-- A retraction is an operation whose body is `x`; its payload has the fields of the operation.
unfoldable pub retraction_signature_payload : Op → ClaimRetracted → Payload
unfolding pop
retraction_signature_payload op x =
    pop "signing_key_id" (pop "signature" (Ops.to_dict (record op { body = claim_retracted x })))

unfoldable pub sign_retraction : Host → Op → ClaimRetracted → String → String → ClaimRetracted
unfolding signature_digest
sign_retraction h op x secret key_id =
    let unsigned = record x { signing_key_id = some key_id; signature = some "" } in
    record unsigned {
      signature = some (signature_digest h (retraction_signature_payload op unsigned) secret);
    }

unfoldable pub retraction_signature_status :
    Host → Op → ClaimRetracted → Dict String String → Result Status
unfolding check_signature signature_digest
retraction_signature_status h op x key_secrets =
    check_signature (nonempty x.signing_key_id) (nonempty x.signature) key_secrets
      λ secret. signature_digest h (retraction_signature_payload op x) secret
