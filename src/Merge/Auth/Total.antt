-- ===== src/Merge/Auth/Total.antt =====
-- When an authenticated merge returns, and with what.
use statefuse.Base.{
  String, ◌≡◌, refl, ◌∙◌, ap, Bool, true, false, Option, none, some, List, [], ◌∷◌, arith, All,
  length, if◌then◌else◌,
}
use statefuse.Base.Dict.{get, or_else}
use statefuse.Base.Order.{string_key}
use statefuse.Json.{Json}
use statefuse.Result.{Result, ok, ◌>>=◌}
use statefuse.Host.{Host}
use statefuse.Ops.{
  Op, Body, source_added, evidence_added, claim_added, claim_retracted, decision_added,
  derivation_added, resolution_added, conflict_lifecycle_event_added,
}
use statefuse.Auth.{
  is_ascii, text_value, nonempty, claim_signature_status, retraction_signature_status,
  signature_digest, signature_payload, retraction_signature_payload,
}
use statefuse.Auth.Verify.{check_signature_total}
use statefuse.OpLog.{OpLog, IsLog, iter_ops}
use statefuse.OpLog.Lookup.{find, iter_ops-IsDistinct}
use statefuse.Merge.{MergeReport, empty_report}
use statefuse.Merge.Join.{copy_total}
use statefuse.Merge.Rounds.{accounted, agree, added_to, duplicates_in}
use statefuse.Merge.Auth.Taken.{
  accepted, refused_by, receive_judged_total, receive_authenticated-lookups,
  receive_authenticated-Taken,
}
use statefuse.Merge.Auth.{
  Policy, body_reason, authenticated_reason, receive_authenticated, merge_checked_authenticated,
  is_revoked, key_id_of, text_or_empty, signature_reason,
}

-- The text that an operation gives as its signature.
abbrev pub signature_of : Body → Option String
signature_of (claim_added c) = text_value (get "signature" c.provenance)
signature_of (claim_retracted x) = nonempty x.signature
signature_of _ = none

abbrev pub IsComparable : Op → Type 0
IsComparable op = (s : String) → signature_of op.body ≡ some s → is_ascii s ≡ true

-- `hexdigest` gives ASCII.
abbrev pub GivesAscii : Host → Type 0
GivesAscii h = (secret : String) (v : Json) → is_ascii (h.hmac secret v) ≡ true

module _ (h : Host) (p : Policy) where
  unless :
      {A : Type 0} (b : Bool) (x : A) (m : Result A)
      → (a : A) × (m ≡ ok a)
      → (a : A) × ((if b then ok x else m) ≡ ok a)
  unless true x m q = (x, refl)
  unless false x m q = q

  body_total :
      (op : Op) (b : Body)
      → GivesAscii h
      → ((s : String) → signature_of b ≡ some s → is_ascii s ≡ true)
      → (o : Option String) × (body_reason h p op b ≡ ok o)
  unfolding body_reason claim_signature_status retraction_signature_status signature_digest
  body_total op (claim_added c) hex ascii =
      let (status, e) =
        check_signature_total (text_value (get "signing_key_id" c.provenance))
          (text_value (get "signature" c.provenance)) p.key_secrets
          (λ t. signature_digest h (signature_payload c) t) ascii (λ t. hex t _) in
      unless (is_revoked (key_id_of h (get "signing_key_id" c.provenance)) p.revoked_keys) _ _ (
        signature_reason "claim_signature_" p.require_signed status,
        ap (λ m. m >>= λ x. ok (signature_reason "claim_signature_" p.require_signed x)) e,
      )
  body_total op (claim_retracted x) hex ascii =
      let (status, e) =
        check_signature_total (nonempty x.signing_key_id) (nonempty x.signature) p.key_secrets
          (λ t. signature_digest h (retraction_signature_payload op x) t) ascii (λ t. hex t _) in
      unless (is_revoked (text_or_empty x.signing_key_id) p.revoked_keys) _ _ (
        signature_reason "retraction_signature_" p.require_signed status,
        ap (λ m. m >>= λ x. ok (signature_reason "retraction_signature_" p.require_signed x)) e,
      )
  body_total op (source_added x) hex ascii = (_, refl)
  body_total op (evidence_added x) hex ascii = (_, refl)
  body_total op (decision_added x) hex ascii = (_, refl)
  body_total op (derivation_added x) hex ascii = (_, refl)
  body_total op (resolution_added x) hex ascii = (_, refl)
  body_total op (conflict_lifecycle_event_added x) hex ascii = (_, refl)

  reason_total :
      (op : Op)
      → GivesAscii h
      → IsComparable op
      → (o : Option String) × (authenticated_reason h p op ≡ ok o)
  unfolding authenticated_reason
  reason_total op hex ascii = unless _ _ _ (body_total op op.body hex ascii)

  receive_authenticated_total :
      (r : MergeReport) (ops : List Op)
      → GivesAscii h
      → All IsComparable ops
      → (s : MergeReport) × (receive_authenticated h p r ops ≡ ok s)
  unfolding receive_authenticated
  receive_authenticated_total r [] hex ascii = (r, refl)
  receive_authenticated_total r (op ∷ ops) hex ascii =
      let (reason, judged) = reason_total op hex ascii.0 in
      let (next, e, _, _) = receive_judged_total r op reason in
      let (s, f) = receive_authenticated_total next ops hex ascii.1 in (s, rw (judged, e) f)

  -- If digests are ASCII and so is every signature that the second log brings, then an
  -- authenticated merge of two logs returns. The log holds what the first log holds, or else the
  -- first operation of the second with that identifier that the policy accepts. Of the operations
  -- of the second that the policy accepts, in their order, those are listed as added whose
  -- identifier the first log lacks, and as duplicates those that are equal to the one it holds;
  -- quarantined are those that the policy refuses, with its reason, and those of the others that
  -- differ from the one that the first log holds; and the lists count each operation once.
  pub merge_checked_authenticated_total :
      (a b : OpLog)
      → IsLog a
      → IsLog b
      → GivesAscii h
      → All IsComparable (iter_ops b)
      → (r : MergeReport) × (merge_checked_authenticated h p a b ≡ ok r)
        × ((id : String)
            → get id r.merged ≡ or_else (get id a) (find id (accepted h p (iter_ops b))))
        × (accounted r ≡ length (iter_ops b))
        × (r.added_op_ids ≡ added_to a (accepted h p (iter_ops b)))
        × (r.duplicate_op_ids ≡ duplicates_in a (accepted h p (iter_ops b)))
        × (r.quarantined ≡ refused_by h p a (iter_ops b))
  unfolding merge_checked_authenticated
  merge_checked_authenticated_total a b va vb hex ascii =
      let (copied, done, valid, same) = copy_total a va in
      let (r, e) = receive_authenticated_total (empty_report copied) (iter_ops b) hex ascii in
      let all =
        receive_authenticated-Taken h p a (empty_report copied) (iter_ops b)
          (iter_ops-IsDistinct b vb) (agree a copied same (iter_ops b)) e in
      (
        r,
        rw done e,
        λ id.
            receive_authenticated-lookups h p (empty_report copied) (iter_ops b) e id
            ∙ ap (λ o. or_else o (find id (accepted h p (iter_ops b)))) (same id),
        omega (arith, all.count),
        all.added,
        all.duplicates,
        all.refused,
      )
