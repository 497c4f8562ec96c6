-- ===== src/Merge/Auth/Raises.antt =====
-- The comparison of a signature can make an authenticated merge raise.
use statefuse.Base.{
  String, ◌≡◌, refl, sym, ◌∙◌, ap, Bool, true, false, not, ◌&&◌, Option, some, List, [], ◌∷◌, inl,
  inr, In, if◌then◌else◌,
}
use statefuse.Base.Dict.{get}
use statefuse.Base.Order.{string_key}
use statefuse.Result.{Result, Error, ok, raise, ◌>>=◌}
use statefuse.Host.{Host}
use statefuse.Model.Claim.{Claim}
use statefuse.Ops.{
  Op, Body, source_added, evidence_added, claim_added, claim_retracted, decision_added,
  derivation_added, resolution_added, conflict_lifecycle_event_added,
}
use statefuse.Auth.{
  is_ascii, not_ascii, text_value, nonempty, claim_signature_status, retraction_signature_status,
  signature_digest, signature_payload, retraction_signature_payload,
}
use statefuse.Auth.Verify.{check_signature_raises, check_signature-error}
use statefuse.OpLog.{OpLog, IsLog, iter_ops}
use statefuse.Merge.{MergeReport, empty_report}
use statefuse.Merge.Join.{copy_total}
use statefuse.Merge.Auth.Taken.{receive_judged_total}
use statefuse.Merge.Auth.{
  Policy, parses, body_times_parse, body_reason, authenticated_reason, receive_judged,
  receive_authenticated, merge_checked_authenticated, is_revoked, key_id_of, text_or_empty,
  signature_reason,
}

module _ (h : Host) (p : Policy) where
  after_if :
      {A : Type 0} (b : Bool) (x : A) (m : Result A) (e : Error)
      → (m ≡ raise e → e ≡ not_ascii)
      → (if b then ok x else m) ≡ raise e
      → e ≡ not_ascii
  after_if true x m e all raised = cc raised
  after_if false x m e all raised = all raised

  after_status :
      {A B : Type 0} (m : Result A) (f : A → B) (e : Error)
      → (m ≡ raise e → e ≡ not_ascii)
      → (m >>= λ x. ok (f x)) ≡ raise e
      → e ≡ not_ascii
  after_status (ok x) f e all raised = cc raised
  after_status (raise d) f e all raised = all (cc raised)

  body-error : (op : Op) (b : Body) (e : Error) → body_reason h p op b ≡ raise e → e ≡ not_ascii
  unfolding body_reason claim_signature_status retraction_signature_status
  body-error op (claim_added c) e raised =
      after_if (is_revoked (key_id_of h (get "signing_key_id" c.provenance)) p.revoked_keys) _ _ e
        (after_status (claim_signature_status h c p.key_secrets)
          (signature_reason "claim_signature_" p.require_signed) e
          (check_signature-error (text_value (get "signing_key_id" c.provenance))
            (text_value (get "signature" c.provenance)) p.key_secrets
            (λ t. signature_digest h (signature_payload c) t) e))
        raised
  body-error op (claim_retracted x) e raised =
      after_if (is_revoked (text_or_empty x.signing_key_id) p.revoked_keys) _ _ e
        (after_status (retraction_signature_status h op x p.key_secrets)
          (signature_reason "retraction_signature_" p.require_signed) e
          (check_signature-error (nonempty x.signing_key_id) (nonempty x.signature) p.key_secrets
            (λ t. signature_digest h (retraction_signature_payload op x) t) e))
        raised
  body-error op (source_added x) e raised = cc raised
  body-error op (evidence_added x) e raised = cc raised
  body-error op (decision_added x) e raised = cc raised
  body-error op (derivation_added x) e raised = cc raised
  body-error op (resolution_added x) e raised = cc raised
  body-error op (conflict_lifecycle_event_added x) e raised = cc raised

  reason-error : (op : Op) (e : Error) → authenticated_reason h p op ≡ raise e → e ≡ not_ascii
  unfolding authenticated_reason
  reason-error op e raised = after_if _ _ _ e (body-error op op.body e) raised

  -- An operation whose check raises makes the loop raise, whatever stands before it.
  loop_raises :
      (r : MergeReport) (ops : List Op) (op : Op)
      → In op ops
      → authenticated_reason h p op ≡ raise not_ascii
      → receive_authenticated h p r ops ≡ raise not_ascii
  unfolding receive_authenticated
  loop_raises r [] op there raises = absurd there
  loop_raises r (x ∷ ops) op (inl e) raises =
      ap
        (λ m.
          m >>= λ reason. receive_judged r x reason >>= λ next. receive_authenticated h p next ops)
        (ap (authenticated_reason h p) (sym e) ∙ raises)
  loop_raises r (x ∷ ops) op (inr later) raises =
      go (authenticated_reason h p x) refl (λ next. loop_raises next ops op later raises)
    where
      go :
          (m : Result (Option String))
          → authenticated_reason h p x ≡ m
          → ((next : MergeReport) → receive_authenticated h p next ops ≡ raise not_ascii)
          → (m >>= λ reason.
              receive_judged r x reason >>= λ next. receive_authenticated h p next ops)
            ≡ raise not_ascii
      go (raise error) judged ih = ap raise (reason-error x error judged)
      go (ok reason) judged ih =
          let (next, e, _, _) = receive_judged_total r x reason in rw e (ih next)

  -- If the second log adds a claim that gives a known key, which is not revoked, and a signature that
  -- is not ASCII, and the times of the operation are in order, if they are asked for, then an
  -- authenticated merge into a log raises: the error of the comparison is not caught.
  pub merge_checked_authenticated_raises :
      (a b : OpLog) (op : Op) (c : Claim) (key_id signature secret : String)
      → IsLog a
      → In op (iter_ops b)
      → op.body ≡ claim_added c
      → (p.require_valid_timestamps && not (parses h op.timestamp && body_times_parse h op.body))
        ≡ false
      → is_revoked (key_id_of h (get "signing_key_id" c.provenance)) p.revoked_keys ≡ false
      → text_value (get "signing_key_id" c.provenance) ≡ some key_id
      → get key_id p.key_secrets ≡ some secret
      → text_value (get "signature" c.provenance) ≡ some signature
      → is_ascii signature ≡ false
      → merge_checked_authenticated h p a b ≡ raise not_ascii
  unfolding merge_checked_authenticated authenticated_reason body_reason claim_signature_status
  merge_checked_authenticated_raises a b op c key_id signature secret va there body times current
        key known signed other =
      let (copied, done, _, _) = copy_total a va in
      let status : claim_signature_status h c p.key_secrets ≡ raise not_ascii =
        rw (key, signed)
          (check_signature_raises key_id signature secret p.key_secrets
            (λ t. signature_digest h (signature_payload c) t) known other) in
      let raises : authenticated_reason h p op ≡ raise not_ascii =
        rw (times, body, current)
          (ap (λ m. m >>= λ x. ok (signature_reason "claim_signature_" p.require_signed x))
            status) in
      rw done (loop_raises (empty_report copied) (iter_ops b) op there raises)
