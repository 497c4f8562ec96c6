-- ===== src/Model/Derivation.antt =====
-- `Derivation` of model.py.
use text.Mathlib.Text.{◌==◌}
use statefuse.Base.{
  String, ◌≡◌, Bool, true, false, not, ◌||◌, Option, none, some, List, [], ◌∷◌, arith, leb, inl,
  inr, Option-cases,
}
use statefuse.Base.Int.{ℤ, pos, negsuc}
use statefuse.Base.Dict.{get}
use statefuse.Base.Order.{string_key}
use statefuse.Json.{
  Json, null, float, str, arr, object, strings, as_strings-strings, from_fields-to_fields,
}
use statefuse.Result.{Result, ok, value_error, raise_if, ◌>>=◌, ◌>>◌}
use statefuse.Host.{Host, float_of}
use statefuse.Model.Access.{Payload, required_string, required_strings, optional_mapping}

pub record Derivation : Type 0 where
  pub derivation_id : String
  pub rule_id : String
  pub input_claim_ids : List String
  pub output_claim_ids : List String
  pub engine : String
  pub explanation : String
  pub timestamp : String
  pub confidence : Option ℤ
  pub metadata : Payload

-- `0.0 <= x <= 1.0`
abbrev pub in_unit : ℤ → Bool
in_unit (pos n) = leb n 1000000
in_unit (negsuc n) = false

abbrev pub in_unit_or_none : Option ℤ → Bool
in_unit_or_none none = true
in_unit_or_none (some x) = in_unit x

unfoldable pub post_init : Derivation → Result Derivation
post_init d = do
  raise_if (d.derivation_id == "" || d.rule_id == "" || d.engine == "" || d.timestamp == "")
      (value_error "Derivation identifiers, rule, engine, and timestamp are required.")
  raise_if (not (in_unit_or_none d.confidence))
      (value_error "Derivation.confidence must be between 0 and 1.")
  ok d

abbrev opt_float : Option ℤ → Json
opt_float none = null
opt_float (some x) = float x

unfoldable pub to_dict : Derivation → Payload
to_dict d =
    ("derivation_id", str d.derivation_id)
    ∷ ("rule_id", str d.rule_id)
    ∷ ("input_claim_ids", arr (strings d.input_claim_ids))
    ∷ ("output_claim_ids", arr (strings d.output_claim_ids))
    ∷ ("engine", str d.engine)
    ∷ ("explanation", str d.explanation)
    ∷ ("timestamp", str d.timestamp)
    ∷ ("confidence", opt_float d.confidence)
    ∷ ("metadata", object d.metadata)
    ∷ []

-- `None if confidence is None else float(confidence)`
abbrev confidence_of : Host → Option Json → Result (Option ℤ)
confidence_of h none = ok none
confidence_of h (some null) = ok none
confidence_of h (some v) = float_of h v >>= λ x. ok (some x)

unfoldable pub from_dict : Host → Payload → Result Derivation
unfolding post_init required_string required_strings optional_mapping get
from_dict h value = do
  input_claim_ids ← required_strings value "input_claim_ids"
  output_claim_ids ← required_strings value "output_claim_ids"
  metadata ← optional_mapping value "metadata"
  derivation_id ← required_string value "derivation_id"
  rule_id ← required_string value "rule_id"
  engine ← required_string value "engine"
  explanation ← required_string value "explanation"
  timestamp ← required_string value "timestamp"
  confidence ← confidence_of h (get "confidence" value)
  post_init (record {
    derivation_id = derivation_id;
    rule_id = rule_id;
    input_claim_ids = input_claim_ids;
    output_claim_ids = output_claim_ids;
    engine = engine;
    explanation = explanation;
    timestamp = timestamp;
    confidence = confidence;
    metadata = metadata;
  })

-- A derivation that its constructor accepts is read back from its payload as it was, if `float`
-- leaves floats alone.
pub from_dict-to_dict_derivation :
    (h : Host) (d : Derivation)
    → ((x : ℤ) → h.to_float (float x) ≡ some x)
    → post_init d ≡ ok d
    → from_dict h (to_dict d) ≡ ok d
unfolding from_dict to_dict
from_dict-to_dict_derivation h d same valid = elim (Option-cases d.confidence) [
  | inl p ↦ ground (
    arith,
    p,
    as_strings-strings d.input_claim_ids,
    as_strings-strings d.output_claim_ids,
    from_fields-to_fields d.metadata,
  )
  | inr (x, p) ↦ ground (
    arith,
    p,
    same x,
    as_strings-strings d.input_claim_ids,
    as_strings-strings d.output_claim_ids,
    from_fields-to_fields d.metadata,
  )
]
