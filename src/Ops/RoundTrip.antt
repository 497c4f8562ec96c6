-- ===== src/Ops/RoundTrip.antt =====
-- An operation is read back from its payload as it was.
use statefuse.Base.{String, ◌≡◌, some, arith}
use statefuse.Base.Int.{ℤ}
use statefuse.Json.{str, float, from_fields-to_fields, as_strings-strings}
use statefuse.Result.{ok}
use statefuse.Host.{Host}
use statefuse.Model.Source
use statefuse.Model.Evidence
use statefuse.Model.Claim
use statefuse.Model.Claim.{IsClaim}
use statefuse.Model.Decision
use statefuse.Model.Derivation
use statefuse.Model.Resolution
use statefuse.Model.Resolution.{ResolutionRecord}
use statefuse.Model.Resolution.RoundTrip
use statefuse.Model.Lifecycle
use statefuse.Ops.Retraction
use statefuse.Ops.{
  Op, Body, source_added, evidence_added, claim_added, claim_retracted, decision_added,
  derivation_added, resolution_added, conflict_lifecycle_event_added, to_dict, from_dict,
}

-- What the operation carries came out of its constructor.
abbrev pub IsBody : Host → Body → Type 0
IsBody h (source_added s) = Source.post_init s ≡ ok s
IsBody h (evidence_added e) = Unit
IsBody h (claim_added c) = IsClaim h c
IsBody h (claim_retracted r) = Retraction.post_init r ≡ ok r
IsBody h (decision_added d) = Unit
IsBody h (derivation_added d) = Derivation.post_init d ≡ ok d
IsBody h (resolution_added r) = Resolution.post_init h r ≡ ok r
IsBody h (conflict_lifecycle_event_added e) = Lifecycle.post_init h e ≡ ok e

module _ (h : Host) (same : (s : String) → h.to_str (str s) ≡ s)
    (same_float : (x : ℤ) → h.to_float (float x) ≡ some x) where
  round_trip :
      (i r t : String) (body : Body)
      → IsBody h body
      → from_dict h (to_dict (record { op_id = i; replica_id = r; timestamp = t; body = body }))
        ≡ ok (record { op_id = i; replica_id = r; timestamp = t; body = body })
  unfolding from_dict to_dict
  round_trip i r t (source_added s) v =
      rw (from_fields-to_fields (Source.to_dict s), Source.from_dict-to_dict_source s v)
  round_trip i r t (evidence_added e) v =
      rw (from_fields-to_fields (Evidence.to_dict e), Evidence.from_dict-to_dict_evidence h e same)
  round_trip i r t (claim_added c) v =
      rw (
        from_fields-to_fields (Claim.to_dict c),
        Claim.from_dict-to_dict_claim h c same same_float v,
      )
  round_trip i r t (claim_retracted x) v =
      unfold Retraction.to_dict Retraction.from_dict in
      ground (arith, v, as_strings-strings x.evidence_ids)
  round_trip i r t (decision_added d) v =
      rw (from_fields-to_fields (Decision.to_dict d), Decision.from_dict-to_dict_decision h d same)
  round_trip i r t (derivation_added d) v = rw (
    from_fields-to_fields (Derivation.to_dict d),
    Derivation.from_dict-to_dict_derivation h d same_float v,
  )
  round_trip i r t (resolution_added x) v = rw (
    from_fields-to_fields (Resolution.to_dict x),
    Resolution.RoundTrip.from_dict-to_dict_resolution h x x same v,
  )
  round_trip i r t (conflict_lifecycle_event_added e) v =
      rw (from_fields-to_fields (Lifecycle.to_dict e), Lifecycle.from_dict-to_dict_event h e v)

  -- An operation whose record came out of its constructor is read back from its payload as it was,
  -- if `str` leaves texts alone and `float` floats.
  pub from_dict-to_dict_op : (op : Op) → IsBody h op.body → from_dict h (to_dict op) ≡ ok op
  from_dict-to_dict_op op valid = round_trip op.op_id op.replica_id op.timestamp op.body valid
