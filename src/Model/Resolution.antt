-- ===== src/Model/Resolution.antt =====
-- `ResolutionRecord` of model.py: a committed resolution of a conflict.
pub mod RoundTrip
use text.Mathlib.Text.{◌==◌}
use statefuse.Base.{
  ℕ, String, Bool, true, false, not, ◌&&◌, ◌||◌, Option, none, some, List, [], ◌∷◌, any, length,
  if◌then◌else◌,
}
use statefuse.Base.{◌==◌ as nat_eq}
use statefuse.Base.Dict.{get, put}
use statefuse.Base.Order.{string_key}
use statefuse.Base.Sorted.{sorted, contains}
use statefuse.Json.{Json, str, arr, object, strings}
use statefuse.Result.{Result, ok, value_error, raise_if, ◌>>=◌, ◌>>◌}
use statefuse.Host.{Host, parse_utc_iso}
use statefuse.Model.Access.{
  Payload, required_string, optional_string, required_strings, optional_mapping, put_some,
}
use statefuse.Model.Validity.{check_ends}

pub record ResolutionRecord : Type 0 where
  pub resolution_id : String
  pub conflict_ref : String
  pub observed_conflict_id : String
  pub selected_claim_ids : List String
  pub rejected_claim_ids : List String
  pub retained_claim_ids : List String
  pub resolution_type : String
  pub reason : String
  pub evidence_ids : List String
  pub actor_id : String
  pub timestamp : String
  pub scope : Option String
  pub valid_from : Option String
  pub valid_until : Option String
  pub metadata : Payload
  pub outcome : String

-- `len(l) != len(set(l))`
unfoldable pub has_duplicates : List String → Bool
unfolding contains
has_duplicates [] = false
has_duplicates (x ∷ l) = contains x l || has_duplicates l

-- `xs & ys`, as a test
unfoldable pub overlaps : List String → List String → Bool
unfolding contains
overlaps [] ys = false
overlaps (x ∷ xs) ys = contains x ys || overlaps xs ys

abbrev pub outcomes : List String
outcomes = "select" ∷ "replace" ∷ "preserve" ∷ "merge" ∷ "abstain" ∷ []

-- No claim stands twice in a group.
unfoldable pub check_groups : ResolutionRecord → Result (Unit {0})
unfolding has_duplicates
check_groups r = do
  raise_if (has_duplicates r.selected_claim_ids)
      (value_error "selected_claim_ids must not contain duplicates.")
  raise_if (has_duplicates r.rejected_claim_ids)
      (value_error "rejected_claim_ids must not contain duplicates.")
  raise_if (has_duplicates r.retained_claim_ids)
      (value_error "retained_claim_ids must not contain duplicates.")

-- `post_init` sorts the groups.
unfoldable pub normalize : ResolutionRecord → ResolutionRecord
normalize r = record r {
  selected_claim_ids = sorted r.selected_claim_ids;
  rejected_claim_ids = sorted r.rejected_claim_ids;
  retained_claim_ids = sorted r.retained_claim_ids;
}

-- The checks that follow, on the sorted groups.
unfoldable pub check_fields : Host → ResolutionRecord → Result (Unit {0})
unfolding overlaps check_ends
check_fields h r = do
  raise_if
      (overlaps r.selected_claim_ids r.rejected_claim_ids
        || overlaps r.selected_claim_ids r.retained_claim_ids
        || overlaps r.rejected_claim_ids r.retained_claim_ids)
      (value_error "ResolutionRecord claim ID sets must not overlap.")
  raise_if (r.resolution_id == "" || r.conflict_ref == "" || r.observed_conflict_id == "")
      (value_error "ResolutionRecord identifiers must be present.")
  raise_if (r.actor_id == "" || r.reason == "" || r.resolution_type == "")
      (value_error "ResolutionRecord actor_id, reason, and resolution_type are required.")
  raise_if (r.timestamp == "") (value_error "ResolutionRecord.timestamp is required.")
  raise_if (not (any (λ o. r.outcome == o) outcomes)) (value_error "Unknown resolution outcome")
  raise_if
      ((r.outcome == "preserve" || r.outcome == "abstain")
        && (not (nat_eq (length r.selected_claim_ids) 0)
            || not (nat_eq (length r.rejected_claim_ids) 0)))
      (value_error "Resolution outcome cannot select or reject claims.")
  raise_if (r.outcome == "merge" && not (nat_eq (length r.selected_claim_ids) 1))
      (value_error "Resolution outcome 'merge' requires one merged claim.")
  _ ← parse_utc_iso h r.timestamp
  check_ends h r.valid_from r.valid_until

unfoldable pub post_init : Host → ResolutionRecord → Result ResolutionRecord
unfolding check_groups normalize check_fields
post_init h r = do check_groups r; check_fields h (normalize r); ok (normalize r)

-- `if outcome != "select": payload["outcome"] = outcome`
unfoldable pub put_outcome : String → Payload → Payload
unfolding put
put_outcome outcome d = if outcome == "select" then d else put "outcome" (str outcome) d

unfoldable pub to_dict : ResolutionRecord → Payload
unfolding put_outcome put_some
to_dict r = put_outcome r.outcome (
    put_some "valid_until" r.valid_until (
      put_some "valid_from" r.valid_from (
        put_some "scope" r.scope (
          ("resolution_id", str r.resolution_id)
          ∷ ("conflict_ref", str r.conflict_ref)
          ∷ ("observed_conflict_id", str r.observed_conflict_id)
          ∷ ("selected_claim_ids", arr (strings r.selected_claim_ids))
          ∷ ("rejected_claim_ids", arr (strings r.rejected_claim_ids))
          ∷ ("retained_claim_ids", arr (strings r.retained_claim_ids))
          ∷ ("resolution_type", str r.resolution_type)
          ∷ ("reason", str r.reason)
          ∷ ("evidence_ids", arr (strings r.evidence_ids))
          ∷ ("actor_id", str r.actor_id)
          ∷ ("timestamp", str r.timestamp)
          ∷ ("metadata", object r.metadata)
          ∷ []))))

-- `str(value.get("outcome", "select"))`
abbrev pub outcome_of : Host → Option Json → String
outcome_of h none = h.to_str (str "select")
outcome_of h (some v) = h.to_str v

unfoldable pub from_dict : Host → Payload → Result ResolutionRecord
unfolding required_string optional_string required_strings optional_mapping get
from_dict h value = do
  metadata ← optional_mapping value "metadata"
  resolution_id ← required_string value "resolution_id"
  conflict_ref ← required_string value "conflict_ref"
  observed_conflict_id ← required_string value "observed_conflict_id"
  selected_claim_ids ← required_strings value "selected_claim_ids"
  rejected_claim_ids ← required_strings value "rejected_claim_ids"
  retained_claim_ids ← required_strings value "retained_claim_ids"
  resolution_type ← required_string value "resolution_type"
  reason ← required_string value "reason"
  evidence_ids ← required_strings value "evidence_ids"
  actor_id ← required_string value "actor_id"
  timestamp ← required_string value "timestamp"
  scope ← optional_string value "scope"
  valid_from ← optional_string value "valid_from"
  valid_until ← optional_string value "valid_until"
  post_init h (record {
    resolution_id = resolution_id;
    conflict_ref = conflict_ref;
    observed_conflict_id = observed_conflict_id;
    selected_claim_ids = selected_claim_ids;
    rejected_claim_ids = rejected_claim_ids;
    retained_claim_ids = retained_claim_ids;
    resolution_type = resolution_type;
    reason = reason;
    evidence_ids = evidence_ids;
    actor_id = actor_id;
    timestamp = timestamp;
    scope = scope;
    valid_from = valid_from;
    valid_until = valid_until;
    metadata = metadata;
    outcome = outcome_of h (get "outcome" value);
  })
