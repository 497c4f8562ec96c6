-- ===== src/Auth/Verify.antt =====
-- What is signed is verified, and only a signature under a known key is.
use statefuse.Base.{
  String, ◌≡◌, ◌≢◌, refl, sym, ◌∙◌, ap, true, false, if◌then◌else◌, Option, none, some, arith,
  eq_iff, Option-cases, inl, inr,
}
use statefuse.Base.Dict.{Dict, get, put, pop, get-put, get-put_self, pop-put_self}
use statefuse.Base.Order.{string_key, ◌==◌}
use statefuse.Json.{Json, str}
use statefuse.Result.{Error, ok, raise}
use statefuse.Host.{Host}
use statefuse.Model.Access.{Payload}
use statefuse.Model.Claim
use statefuse.Model.Claim.{Claim}
use statefuse.Ops
use statefuse.Ops.{Op, claim_retracted}
use statefuse.Ops.Retraction
use statefuse.Ops.Retraction.{ClaimRetracted}
use statefuse.Auth.{
  Status, verified, invalid, missing, unknown_key, is_ascii, compare_digest, not_ascii,
  unsigned_body, signature_payload, signature_digest, sign_claim, check_signature,
  claim_signature_status, retraction_signature_payload, sign_retraction,
  retraction_signature_status, text_value, nonempty,
}

-- The payload does not depend on the provenance but for what is left of it without a signature.
signature_payload-eq :
    (c : Claim) (p q : Payload)
    → unsigned_body p ≡ unsigned_body q
    → signature_payload (record c { provenance = p })
      ≡ signature_payload (record c { provenance = q })
unfolding signature_payload Claim.to_dict
signature_payload-eq c p q same = ground (arith, same)

-- Where a check verifies, the key is known and the signature is the digest under its secret.
pub check_signature-verified :
    (key_id signature : Option String) (secrets : Dict String String) (digest : String → String)
    → check_signature key_id signature secrets digest ≡ ok verified
    → (k : String) × (secret : String) × (key_id ≡ some k)
      × (get k secrets ≡ some secret)
      × (signature ≡ some (digest secret))
unfolding check_signature compare_digest
check_signature-verified none signature secrets digest e = absurd (cc)
check_signature-verified (some k) none secrets digest e = absurd (cc)
check_signature-verified (some k) (some s) secrets digest e = elim (Option-cases (get k secrets)) [
  | inl unknown ↦ absurd (ground (arith, unknown))
  | inr (secret, known) ↦ (k, secret, refl, known, ground (arith, known, eq_iff s (digest secret)))
]

check_signature_of :
    (k s secret : String) (secrets : Dict String String) (digest : String → String)
    → get k secrets ≡ some secret
    → s ≡ digest secret
    → is_ascii s ≡ true
    → check_signature (some k) (some s) secrets digest ≡ ok verified
unfolding check_signature compare_digest
check_signature_of k s secret secrets digest known e ascii =
    ground (arith, known, eq_iff s (digest secret), ascii, ap is_ascii e)

-- A check of an ASCII signature, or of none, returns, if the digests are ASCII.
pub check_signature_total :
    (key_id signature : Option String) (secrets : Dict String String) (digest : String → String)
    → ((s : String) → signature ≡ some s → is_ascii s ≡ true)
    → ((secret : String) → is_ascii (digest secret) ≡ true)
    → (status : Status) × (check_signature key_id signature secrets digest ≡ ok status)
unfolding check_signature compare_digest
check_signature_total none signature secrets digest ascii hex = (missing, refl)
check_signature_total (some k) none secrets digest ascii hex = (missing, refl)
check_signature_total (some k) (some s) secrets digest ascii hex =
    elim (Option-cases (get k secrets)) [
      | inl unknown ↦ (unknown_key, ground (arith, unknown))
      | inr (secret, known) ↦ (
        if s == digest secret then verified else invalid,
        ground (arith, known, ascii s refl, hex secret),
      )
    ]

-- A check of another signature raises, if the key is known.
pub check_signature_raises :
    (k s secret : String) (secrets : Dict String String) (digest : String → String)
    → get k secrets ≡ some secret
    → is_ascii s ≡ false
    → check_signature (some k) (some s) secrets digest ≡ raise not_ascii
unfolding check_signature compare_digest
check_signature_raises k s secret secrets digest known other = ground (arith, known, other)

-- Nothing else makes a check raise.
pub check_signature-error :
    (key_id signature : Option String) (secrets : Dict String String) (digest : String → String)
    (e : Error)
    → check_signature key_id signature secrets digest ≡ raise e
    → e ≡ not_ascii
unfolding check_signature compare_digest
check_signature-error none signature secrets digest e raised = absurd (cc)
check_signature-error (some k) none secrets digest e raised = absurd (cc)
check_signature-error (some k) (some s) secrets digest e raised =
    elim (Option-cases (get k secrets)) [
      | inl unknown ↦ absurd (ground (arith, unknown))
      | inr (secret, known) ↦ ground (arith, known)
    ]

-- The payload of a retraction leaves the signature out.
payload_unsigned :
    (op : Op) (x : ClaimRetracted) (s : String)
    → retraction_signature_payload op x
      ≡ retraction_signature_payload op (record x { signature = some s })
unfolding retraction_signature_payload Ops.to_dict Retraction.to_dict
payload_unsigned op x s = refl

text_value_str : (s : String) → s ≢ "" → text_value (some (str s)) ≡ some s
text_value_str s h = ground (arith, eq_iff s "")

nonempty-some : (s : String) → s ≢ "" → nonempty (some s) ≡ some s
nonempty-some s h = ground (arith, eq_iff s "")

module _ (h : Host) (secret key_id : String) (secrets : Dict String String) where
  verified_claim :
      (c : Claim) (s : String)
      → get key_id secrets ≡ some secret
      → get "signing_key_id" c.provenance ≡ some (str key_id)
      → get "signature" c.provenance ≡ some (str s)
      → key_id ≢ ""
      → s ≢ ""
      → s ≡ signature_digest h (signature_payload c) secret
      → is_ascii s ≡ true
      → claim_signature_status h c secrets ≡ ok verified
  unfolding claim_signature_status
  verified_claim c s known has_key has_signature named solid e ascii =
      rw (has_key, has_signature, text_value_str key_id named, text_value_str s solid)
        (check_signature_of key_id s secret secrets
          (λ t. signature_digest h (signature_payload c) t) known e ascii)

  -- The signature does not enter the payload that it signs.
  unsigned_body-sign :
      (s : Json) (p : Payload) → unsigned_body (put "signature" s p) ≡ unsigned_body p
  unfolding unsigned_body
  unsigned_body-sign s p = ap (pop "signing_key_id") (pop-put_self "signature" s p)

  -- A claim that was signed under a known key is verified, if the name of the key and the digests
  -- under its secret are not the empty text, and these digests are ASCII.
  pub sign_claim_verified :
      (c : Claim)
      → get key_id secrets ≡ some secret
      → key_id ≢ ""
      → ((d : Payload) → signature_digest h d secret ≢ "")
      → ((d : Payload) → is_ascii (signature_digest h d secret) ≡ true)
      → claim_signature_status h (sign_claim h c secret key_id) secrets ≡ ok verified
  unfolding sign_claim
  sign_claim_verified c known named solid hex =
      let p = put "signing_key_id" (str key_id) c.provenance in
      let s = signature_digest h (signature_payload (record c { provenance = p })) secret in
      let signed = record c { provenance = put "signature" (str s) p } in
      verified_claim signed s known
        (get-put "signature" "signing_key_id" (str s) p
          ∙ get-put_self "signing_key_id" (str key_id) c.provenance)
        (get-put_self "signature" (str s) p) named (solid _)
        (ap (λ d. signature_digest h d secret)
          (signature_payload-eq c p (put "signature" (str s) p)
            (sym (unsigned_body-sign (str s) p))))
        (hex _)

  -- A retraction that was signed under a known key is verified, if the name of the key and the
  -- digests under its secret are not the empty text, and these digests are ASCII.
  pub sign_retraction_verified :
      (op : Op) (x : ClaimRetracted)
      → get key_id secrets ≡ some secret
      → key_id ≢ ""
      → ((d : Payload) → signature_digest h d secret ≢ "")
      → ((d : Payload) → is_ascii (signature_digest h d secret) ≡ true)
      → retraction_signature_status h op (sign_retraction h op x secret key_id) secrets
        ≡ ok verified
  unfolding sign_retraction retraction_signature_status
  sign_retraction_verified op x known named solid hex =
      let unsigned = record x { signing_key_id = some key_id; signature = some "" } in
      let s = signature_digest h (retraction_signature_payload op unsigned) secret in
      rw (nonempty-some key_id named, nonempty-some s (solid _))
        (check_signature_of key_id s secret secrets
          (λ t.
            signature_digest h
              (retraction_signature_payload op (record unsigned { signature = some s })) t)
          known (ap (λ d. signature_digest h d secret) (payload_unsigned op unsigned s)) (hex _))
