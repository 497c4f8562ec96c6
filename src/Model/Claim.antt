-- ===== src/Model/Claim.antt =====
-- `Claim` of model.py, and the reference that names what it says.
use Prim.Native.String.{◌++◌}
use text.Mathlib.Text.{◌==◌}
use statefuse.Base.{
  String, ◌≡◌, refl, not, Option, none, some, List, [], ◌∷◌, arith, map, ap₂, eq_iff, inl, inr,
  Option-cases, if◌then◌else◌, any,
}
use statefuse.Base.Int.{ℤ}
use statefuse.Base.Dict.{get, put, keys}
use statefuse.Base.Order.{string_key}
use statefuse.Json.{
  Json, null, float, str, arr, obj, object, strings, from_items, from_fields, from_fields-to_fields,
}
use statefuse.Result.{Result, ok, raise, value_error, type_error, raise_if, ◌>>=◌, ◌>>◌}
use statefuse.Host.{Host, float_of}
use statefuse.Model.Access.{Payload, optional_string, optional_mapping, item, put_some}
use statefuse.Model.ClaimKey
use statefuse.Model.ClaimKey.{ClaimKey}
use statefuse.Model.Validity
use statefuse.Model.Validity.{ValidityInterval}
use statefuse.Model.Derivation.{in_unit}

pub record Claim : Type 0 where
  pub claim_id : String
  pub key : ClaimKey
  pub value : Json
  pub confidence : ℤ
  pub timestamp : String
  pub claim_ref : String
  pub evidence_ids : List String
  pub provenance : Payload
  pub validity : Option ValidityInterval
  pub derivation_id : Option String
  pub kind : String
  pub context : Payload

-- `if kind != "fact": payload["kind"] = kind`
unfoldable pub put_kind : String → Payload → Payload
unfolding put
put_kind kind d = if kind == "fact" then d else put "kind" (str kind) d

-- `if context: payload["context"] = dict(context)`
unfoldable pub put_context : Payload → Payload → Payload
unfolding put
put_context [] d = d
put_context (e ∷ context) d = put "context" (object (e ∷ context)) d

-- The reference leaves out the identifier, the confidence, the times and the provenance.
unfoldable pub claim_ref_payload : ClaimKey → Json → String → Payload → Payload
unfolding put_kind put_context ClaimKey.to_dict
claim_ref_payload key value kind context =
    put_context context
      (put_kind kind (("key", object (ClaimKey.to_dict key)) ∷ ("value", value) ∷ []))

unfoldable pub derive_claim_ref : Host → ClaimKey → Json → String → Payload → String
derive_claim_ref h key value kind context =
    "sha256:" ++ h.digest_json_value (object (claim_ref_payload key value kind context))

unfoldable pub post_init : Host → Claim → Result Claim
post_init h c = do
  raise_if (not (in_unit c.confidence)) (value_error "Claim.confidence must be between 0 and 1.")
  raise_if (c.kind == "") (value_error "Claim.kind must be a non-empty string.")
  raise_if (any (λ k. k == "") (keys c.context))
      (value_error "Claim.context must be a mapping with non-empty string keys.")
  ok (
      if c.claim_ref == ""
      then record c { claim_ref = derive_claim_ref h c.key c.value c.kind c.context }
      else c)

-- `if self.validity is not None: payload["validity"] = self.validity.to_dict()`
unfoldable pub put_validity : Option ValidityInterval → Payload → Payload
unfolding put Validity.to_dict
put_validity none d = d
put_validity (some v) d = put "validity" (object (Validity.to_dict v)) d

unfoldable pub to_dict : Claim → Payload
unfolding put_some put_kind put_context put_validity ClaimKey.to_dict
to_dict c = put_context c.context (
    put_kind c.kind (
      put_some "derivation_id" c.derivation_id (
        put_validity c.validity (
          ("claim_id", str c.claim_id)
          ∷ ("claim_ref", str c.claim_ref)
          ∷ ("key", object (ClaimKey.to_dict c.key))
          ∷ ("value", c.value)
          ∷ ("confidence", float c.confidence)
          ∷ ("timestamp", str c.timestamp)
          ∷ ("evidence_ids", arr (strings c.evidence_ids))
          ∷ ("provenance", object c.provenance)
          ∷ []))))

-- `dict(value["key"])`
abbrev as_mapping : Json → Result Payload
as_mapping (obj fs) = ok (from_fields fs)
as_mapping _ = raise (type_error "cannot convert to a dictionary")

-- `value.get("evidence_ids", [])`, each passed through `str`
abbrev evidence_ids_of : Host → Option Json → Result (List String)
evidence_ids_of h none = ok []
evidence_ids_of h (some (arr xs)) = ok (map h.to_str (from_items xs))
evidence_ids_of h (some _) = raise (value_error "Claim.evidence_ids must be a list.")

-- `validity` must be an object or null before anything else is read.
abbrev check_validity : Option Json → Result (Option Payload)
check_validity none = ok none
check_validity (some null) = ok none
check_validity (some (obj fs)) = ok (some (from_fields fs))
check_validity (some _) = raise (value_error "Claim.validity must be an object or null.")

abbrev validity_of : Host → Option Payload → Result (Option ValidityInterval)
validity_of h none = ok none
validity_of h (some d) = Validity.from_dict h d >>= λ v. ok (some v)

abbrev kind_of : Option Json → Result String
kind_of none = ok "fact"
kind_of (some (str s)) = ok s
kind_of (some _) = raise (value_error "Claim.kind must be a non-empty string.")

abbrev text_or_empty : Host → Option Json → String
text_or_empty h none = h.to_str (str "")
text_or_empty h (some v) = h.to_str v

unfoldable pub from_dict : Host → Payload → Result Claim
unfolding post_init optional_string optional_mapping item get Validity.from_dict ClaimKey.from_dict
from_dict h value = do
  evidence_ids ← evidence_ids_of h (get "evidence_ids" value)
  provenance ← optional_mapping value "provenance"
  context ← optional_mapping value "context"
  interval ← check_validity (get "validity" value)
  claim_id ← item value "claim_id"
  key ← item value "key"
  key_fields ← as_mapping key
  claim_key ← ClaimKey.from_dict h key_fields
  claim_value ← item value "value"
  number ← item value "confidence"
  confidence ← float_of h number
  timestamp ← item value "timestamp"
  validity ← validity_of h interval
  derivation_id ← optional_string value "derivation_id"
  raise_if (not (in_unit confidence)) (value_error "Claim.confidence must be between 0 and 1.")
  kind ← kind_of (get "kind" value)
  post_init h (record {
    claim_id = h.to_str claim_id;
    key = claim_key;
    value = claim_value;
    confidence = confidence;
    timestamp = h.to_str timestamp;
    claim_ref = text_or_empty h (get "claim_ref" value);
    evidence_ids = evidence_ids;
    provenance = provenance;
    validity = validity;
    derivation_id = derivation_id;
    kind = kind;
    context = context;
  })

map-strings :
    (h : Host) (l : List String)
    → ((s : String) → h.to_str (str s) ≡ s)
    → map h.to_str (from_items (strings l)) ≡ l
map-strings h [] same = refl
map-strings h (s ∷ l) same = ap₂ ◌∷◌ (same s) (map-strings h l same)

-- A claim is well formed if its constructor and that of its interval accept it unchanged.
pub record IsClaim (h : Host) (c : Claim) : Type 0 where
  pub accepted : post_init h c ≡ ok c
  pub interval : (v : ValidityInterval) → c.validity ≡ some v → Validity.post_init h v ≡ ok v

-- A claim that its constructor and that of its interval accept and leave as it is, is read back
-- from its payload as it was, if `str` leaves texts alone and `float` floats.
pub from_dict-to_dict_claim :
    (h : Host) (c : Claim)
    → ((s : String) → h.to_str (str s) ≡ s)
    → ((x : ℤ) → h.to_float (float x) ≡ some x)
    → IsClaim h c
    → from_dict h (to_dict c) ≡ ok c
unfolding from_dict to_dict
from_dict-to_dict_claim h c same same_float valid = elim (Option-cases c.validity) [
  | inl p ↦ ground (
    arith,
    p,
    valid.accepted,
    eq_iff c.kind "fact",
    same c.claim_id,
    same c.claim_ref,
    same c.timestamp,
    same_float c.confidence,
    map-strings h c.evidence_ids same,
    from_fields-to_fields c.provenance,
    from_fields-to_fields c.context,
    ClaimKey.from_dict-to_dict_claim_key h c.key same,
  )
  | inr (v, p) ↦ ground (
    arith,
    p,
    valid.accepted,
    valid.interval v p,
    Validity.from_dict-to_dict_validity h v (valid.interval v p),
    eq_iff c.kind "fact",
    same c.claim_id,
    same c.claim_ref,
    same c.timestamp,
    same_float c.confidence,
    map-strings h c.evidence_ids same,
    from_fields-to_fields c.provenance,
    from_fields-to_fields c.context,
    ClaimKey.from_dict-to_dict_claim_key h c.key same,
  )
]
