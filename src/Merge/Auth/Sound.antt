-- ===== src/Merge/Auth/Sound.antt =====
-- Each claim that enters an authenticated merge under a signing policy carries a digest under a
-- known, unrevoked key.
use statefuse.Base.{
  String, ◌≡◌, refl, sym, ◌∙◌, ap, true, false, Option, none, some, List, [], ◌∷◌, inl, inr, arith,
  Bool-cases, if◌then◌else◌,
}
use statefuse.Base.Dict.{get, or_else}
use statefuse.Base.Order.{string_key, ◌==◌}
use statefuse.Result.{Result, ok, raise, ◌>>=◌}
use statefuse.Host.{Host}
use statefuse.Model.Claim.{Claim}
use statefuse.Ops.{Op, claim_added}
use statefuse.Auth.{
  verified, claim_signature_status, signature_digest, signature_payload, text_value,
}
use statefuse.Auth.Verify.{check_signature-verified}
use statefuse.OpLog.{OpLog, IsLog, iter_ops}
use statefuse.OpLog.Lookup.{find}
use statefuse.Merge.{MergeReport, empty_report}
use statefuse.Merge.Join.{copy_total}
use statefuse.Merge.Auth.Taken.{passes, accepted, receive_authenticated-lookups}
use statefuse.Merge.Auth.{
  Policy, authenticated_reason, receive_authenticated, merge_checked_authenticated, is_revoked,
  key_id_of,
}

module _ (h : Host) (p : Policy) where
  find_accepted :
      (id : String) (ops : List Op) (op : Op)
      → find id (accepted h p ops) ≡ some op
      → authenticated_reason h p op ≡ ok none
  unfolding accepted find
  find_accepted id [] op e = absurd (cc)
  find_accepted id (x ∷ ops) op e = go (authenticated_reason h p x) refl e (find_accepted id ops op)
    where
      go :
          (m : Result (Option String))
          → authenticated_reason h p x ≡ m
          → find id (if passes m then x ∷ accepted h p ops else accepted h p ops) ≡ some op
          → (find id (accepted h p ops) ≡ some op → authenticated_reason h p op ≡ ok none)
          → authenticated_reason h p op ≡ ok none
      go (ok none) fine e ih = elim (Bool-cases (x.op_id == id)) [
        | inl own ↦
            let same : x ≡ op = ground (arith, own, e) in
            ap (authenticated_reason h p) (sym same) ∙ fine
        | inr other ↦ ih (ground (arith, other, e))
      ]
      go (ok (some reason)) refused e ih = ih e
      go (raise error) raised e ih = ih e

  -- What a policy that requires signatures has nothing against.
  accepted_claim :
      (op : Op) (c : Claim)
      → p.require_signed ≡ true
      → op.body ≡ claim_added c
      → authenticated_reason h p op ≡ ok none
      → (claim_signature_status h c p.key_secrets ≡ ok verified)
        × (is_revoked (key_id_of h (get "signing_key_id" c.provenance)) p.revoked_keys ≡ false)
  unfolding authenticated_reason
  accepted_claim op c signed body e = ground (arith, signed, body, e)

  -- Under a policy that requires signatures, a claim that an authenticated merge holds under an
  -- identifier that the first log lacks is signed: its key is known and not revoked, and its
  -- signature is the digest of its payload under the secret of that key.
  pub authenticated_claims :
      (a b : OpLog) (r : MergeReport) (id : String) (op : Op) (c : Claim)
      → IsLog a
      → merge_checked_authenticated h p a b ≡ ok r
      → p.require_signed ≡ true
      → get id a ≡ none
      → get id r.merged ≡ some op
      → op.body ≡ claim_added c
      → (k : String) × (secret : String) × (text_value (get "signing_key_id" c.provenance) ≡ some k)
        × (get k p.key_secrets ≡ some secret)
        × (text_value (get "signature" c.provenance)
            ≡ some (signature_digest h (signature_payload c) secret))
        × (is_revoked (key_id_of h (get "signing_key_id" c.provenance)) p.revoked_keys ≡ false)
  unfolding claim_signature_status merge_checked_authenticated
  authenticated_claims a b r id op c va e signed outside inside body =
      let (copied, done, valid, same) = copy_total a va in
      let lookups =
        receive_authenticated-lookups h p (empty_report copied) (iter_ops b)
          (sym (ap (λ m. m >>= λ l. receive_authenticated h p (empty_report l) (iter_ops b)) done)
            ∙ e)
          id in
      let fine = find_accepted id (iter_ops b) op (
        sym (ap (λ o. or_else o (find id (accepted h p (iter_ops b)))) (same id ∙ outside))
        ∙ sym lookups
        ∙ inside) in
      let (holds, current) = accepted_claim op c signed body fine in
      let (k, secret, key, known, sign) =
        check_signature-verified (text_value (get "signing_key_id" c.provenance))
          (text_value (get "signature" c.provenance)) p.key_secrets
          (λ t. signature_digest h (signature_payload c) t) holds in
      (k, secret, key, known, sign, current)
