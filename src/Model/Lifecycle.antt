-- ===== src/Model/Lifecycle.antt =====
-- `ConflictLifecycleEvent` of model.py.
use text.Mathlib.Text.{◌==◌}
use statefuse.Base.{String, ◌≡◌, not, ◌||◌, Option, List, [], ◌∷◌, arith, any}
use statefuse.Json.{str, object, from_fields-to_fields}
use statefuse.Result.{Result, ok, value_error, raise_if, ◌>>=◌, ◌>>◌}
use statefuse.Host.{Host, parse_utc_iso}
use statefuse.Model.Access.{Payload, required_string, optional_string, optional_mapping, put_some}

pub record ConflictLifecycleEvent : Type 0 where
  pub event_id : String
  pub conflict_ref : String
  pub observed_conflict_id : String
  pub status : String
  pub timestamp : String
  pub reason : String
  pub actor_id : Option String
  pub scope : Option String
  pub resolution_id : Option String
  pub metadata : Payload

abbrev pub lifecycle_statuses : List String
lifecycle_statuses = "open" ∷ "deferred" ∷ "resolved" ∷ "reopened" ∷ "invalidated" ∷ []

unfoldable pub post_init : Host → ConflictLifecycleEvent → Result ConflictLifecycleEvent
post_init h e = do
  raise_if (e.event_id == "" || e.conflict_ref == "" || e.observed_conflict_id == "")
      (value_error "ConflictLifecycleEvent identifiers must be present.")
  raise_if (not (any (λ s. e.status == s) lifecycle_statuses))
      (value_error "Unknown conflict lifecycle status")
  raise_if (e.reason == "") (value_error "ConflictLifecycleEvent.reason is required.")
  raise_if (e.timestamp == "")
      (value_error "ConflictLifecycleEvent timestamp and reason are required.")
  _ ← parse_utc_iso h e.timestamp
  ok e

unfoldable pub to_dict : ConflictLifecycleEvent → Payload
unfolding put_some
to_dict e = put_some "resolution_id" e.resolution_id (
    put_some "scope" e.scope (
      put_some "actor_id" e.actor_id (
        ("event_id", str e.event_id)
        ∷ ("conflict_ref", str e.conflict_ref)
        ∷ ("observed_conflict_id", str e.observed_conflict_id)
        ∷ ("status", str e.status)
        ∷ ("timestamp", str e.timestamp)
        ∷ ("reason", str e.reason)
        ∷ ("metadata", object e.metadata)
        ∷ [])))

unfoldable pub from_dict : Host → Payload → Result ConflictLifecycleEvent
unfolding required_string optional_string optional_mapping
from_dict h value = do
  metadata ← optional_mapping value "metadata"
  event_id ← required_string value "event_id"
  conflict_ref ← required_string value "conflict_ref"
  observed_conflict_id ← required_string value "observed_conflict_id"
  status ← required_string value "status"
  timestamp ← required_string value "timestamp"
  reason ← required_string value "reason"
  actor_id ← optional_string value "actor_id"
  scope ← optional_string value "scope"
  resolution_id ← optional_string value "resolution_id"
  post_init h (record {
    event_id = event_id;
    conflict_ref = conflict_ref;
    observed_conflict_id = observed_conflict_id;
    status = status;
    timestamp = timestamp;
    reason = reason;
    actor_id = actor_id;
    scope = scope;
    resolution_id = resolution_id;
    metadata = metadata;
  })

-- An event that its constructor accepts is read back from its payload as it was.
pub from_dict-to_dict_event :
    (h : Host) (e : ConflictLifecycleEvent) → post_init h e ≡ ok e → from_dict h (to_dict e) ≡ ok e
unfolding from_dict to_dict
from_dict-to_dict_event h e valid = ground (arith, from_fields-to_fields e.metadata)
