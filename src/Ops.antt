-- ===== src/Ops.antt =====
-- ops.py: the immutable operations of the log, and their payloads.
pub mod Retraction
pub mod Equality
pub mod RoundTrip
use text.Mathlib.Text.{◌==◌}
use statefuse.Base.{String, Option, none, some, List, [], ◌∷◌, if◌then◌else◌, any}
use statefuse.Base.Dict.{get}
use statefuse.Base.Order.{string_key}
use statefuse.Json.{Json, str, object}
use statefuse.Result.{Result, ok, raise, value_error, ◌>>=◌}
use statefuse.Host.{Host}
use statefuse.Model.Access.{Payload, required_string, mapping_value}
use statefuse.Model.Source
use statefuse.Model.Source.{Source}
use statefuse.Model.Evidence
use statefuse.Model.Evidence.{Evidence}
use statefuse.Model.Claim
use statefuse.Model.Claim.{Claim}
use statefuse.Model.Decision
use statefuse.Model.Decision.{Decision}
use statefuse.Model.Derivation
use statefuse.Model.Derivation.{Derivation}
use statefuse.Model.Resolution
use statefuse.Model.Resolution.{ResolutionRecord}
use statefuse.Model.Lifecycle
use statefuse.Model.Lifecycle.{ConflictLifecycleEvent}
use Retraction.{ClaimRetracted}

-- The subclasses of `Op`.
pub data Body : Type 0 where
  source_added : Source → Body
  evidence_added : Evidence → Body
  claim_added : Claim → Body
  claim_retracted : ClaimRetracted → Body
  decision_added : Decision → Body
  derivation_added : Derivation → Body
  resolution_added : ResolutionRecord → Body
  conflict_lifecycle_event_added : ConflictLifecycleEvent → Body

pub record Op : Type 0 where
  pub op_id : String
  pub replica_id : String
  pub timestamp : String
  pub body : Body

unfoldable pub op_type : Body → String
op_type (source_added _) = "SourceAdded"
op_type (evidence_added _) = "EvidenceAdded"
op_type (claim_added _) = "ClaimAdded"
op_type (claim_retracted _) = "ClaimRetracted"
op_type (decision_added _) = "DecisionAdded"
op_type (derivation_added _) = "DerivationAdded"
op_type (resolution_added _) = "ResolutionAdded"
op_type (conflict_lifecycle_event_added _) = "ConflictLifecycleEventAdded"

-- `_payload_to_dict` of each class
abbrev source_payload : Source → Payload
source_payload s = ("source", object (Source.to_dict s)) ∷ []

abbrev evidence_payload : Evidence → Payload
evidence_payload e = ("evidence", object (Evidence.to_dict e)) ∷ []

abbrev claim_payload : Claim → Payload
claim_payload c = ("claim", object (Claim.to_dict c)) ∷ []

abbrev decision_payload : Decision → Payload
decision_payload d = ("decision", object (Decision.to_dict d)) ∷ []

abbrev derivation_payload : Derivation → Payload
derivation_payload d = ("derivation", object (Derivation.to_dict d)) ∷ []

abbrev resolution_payload : ResolutionRecord → Payload
resolution_payload r = ("resolution", object (Resolution.to_dict r)) ∷ []

abbrev event_payload : ConflictLifecycleEvent → Payload
event_payload e = ("event", object (Lifecycle.to_dict e)) ∷ []

unfoldable pub payload_to_dict : Body → Payload
payload_to_dict (source_added s) = source_payload s
payload_to_dict (evidence_added e) = evidence_payload e
payload_to_dict (claim_added c) = claim_payload c
payload_to_dict (claim_retracted r) = Retraction.to_dict r
payload_to_dict (decision_added d) = decision_payload d
payload_to_dict (derivation_added d) = derivation_payload d
payload_to_dict (resolution_added r) = resolution_payload r
payload_to_dict (conflict_lifecycle_event_added e) = event_payload e

unfoldable pub to_dict : Op → Payload
unfolding op_type payload_to_dict
to_dict op =
    ("op_id", str op.op_id)
    ∷ ("op_type", str (op_type op.body))
    ∷ ("replica_id", str op.replica_id)
    ∷ ("timestamp", str op.timestamp)
    ∷ payload_to_dict op.body

-- Reading what an operation of each class carries; the common fields are read first.
abbrev source_from_dict : Payload → Result Body
source_from_dict payload = do
  d ← mapping_value payload "source"
  s ← Source.from_dict d
  ok (source_added s)

abbrev evidence_from_dict : Host → Payload → Result Body
evidence_from_dict h payload = do
  d ← mapping_value payload "evidence"
  e ← Evidence.from_dict h d
  ok (evidence_added e)

abbrev claim_from_dict : Host → Payload → Result Body
claim_from_dict h payload = do
  d ← mapping_value payload "claim"
  c ← Claim.from_dict h d
  ok (claim_added c)

abbrev retraction_from_dict : Payload → Result Body
retraction_from_dict payload = do r ← Retraction.from_dict payload; ok (claim_retracted r)

abbrev decision_from_dict : Host → Payload → Result Body
decision_from_dict h payload = do
  d ← mapping_value payload "decision"
  e ← Decision.from_dict h d
  ok (decision_added e)

abbrev derivation_from_dict : Host → Payload → Result Body
derivation_from_dict h payload = do
  d ← mapping_value payload "derivation"
  e ← Derivation.from_dict h d
  ok (derivation_added e)

abbrev resolution_from_dict : Host → Payload → Result Body
resolution_from_dict h payload = do
  d ← mapping_value payload "resolution"
  r ← Resolution.from_dict h d
  ok (resolution_added r)

abbrev event_from_dict : Host → Payload → Result Body
event_from_dict h payload = do
  d ← mapping_value payload "event"
  e ← Lifecycle.from_dict h d
  ok (conflict_lifecycle_event_added e)

-- `op_cls._from_dict`, for the class that an `op_type` names
unfoldable pub body_from_dict : Host → String → Payload → Result Body
unfolding mapping_value
body_from_dict h kind payload =
    if kind == "SourceAdded"
    then source_from_dict payload
    else if kind == "EvidenceAdded"
    then evidence_from_dict h payload
    else if kind == "ClaimAdded"
    then claim_from_dict h payload
    else if kind == "ClaimRetracted"
    then retraction_from_dict payload
    else if kind == "DecisionAdded"
    then decision_from_dict h payload
    else if kind == "DerivationAdded"
    then derivation_from_dict h payload
    else if kind == "ResolutionAdded"
    then resolution_from_dict h payload
    else event_from_dict h payload

abbrev pub op_types : List String
op_types =
    "SourceAdded" ∷ "EvidenceAdded" ∷ "ClaimAdded" ∷ "ClaimRetracted" ∷ "DecisionAdded"
    ∷ "DerivationAdded" ∷ "ResolutionAdded" ∷ "ConflictLifecycleEventAdded" ∷ []

-- `_OP_TYPES.get(op_type)`
unfoldable pub known_type : Payload → Result String
unfolding get
known_type payload = elim (get "op_type" payload) [
  | some (str kind) ↦
      if any (λ t. kind == t) op_types then ok kind else raise (value_error "Unknown op_type")
  | _ ↦ raise (value_error "op_type must be present and must be a string.")
]

unfoldable pub from_dict : Host → Payload → Result Op
unfolding known_type body_from_dict required_string
from_dict h payload = do
  kind ← known_type payload
  op_id ← required_string payload "op_id"
  replica_id ← required_string payload "replica_id"
  timestamp ← required_string payload "timestamp"
  body ← body_from_dict h kind payload
  ok (record { op_id = op_id; replica_id = replica_id; timestamp = timestamp; body = body })
