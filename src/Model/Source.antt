-- ===== src/Model/Source.antt =====
-- `Source` of model.py: where evidence comes from.
use text.Mathlib.Text.{◌==◌}
use statefuse.Base.{String, ◌≡◌, Option, [], ◌∷◌, arith}
use statefuse.Json.{str, object, opt_str, from_fields-to_fields}
use statefuse.Result.{Result, ok, value_error, raise_if, ◌>>=◌, ◌>>◌}
use statefuse.Model.Access.{Payload, required_string, optional_string, optional_mapping}

pub record Source : Type 0 where
  pub source_id : String
  pub source_type : String
  pub uri : Option String
  pub system : Option String
  pub actor_id : Option String
  pub session_id : Option String
  pub message_id : Option String
  pub timestamp : Option String
  pub metadata : Payload

unfoldable pub post_init : Source → Result Source
post_init s = do
  raise_if (s.source_id == "") (value_error "Source.source_id must be present.")
  raise_if (s.source_type == "") (value_error "Source.source_type must be present.")
  ok s

unfoldable pub to_dict : Source → Payload
to_dict s =
    ("source_id", str s.source_id)
    ∷ ("source_type", str s.source_type)
    ∷ ("uri", opt_str s.uri)
    ∷ ("system", opt_str s.system)
    ∷ ("actor_id", opt_str s.actor_id)
    ∷ ("session_id", opt_str s.session_id)
    ∷ ("message_id", opt_str s.message_id)
    ∷ ("timestamp", opt_str s.timestamp)
    ∷ ("metadata", object s.metadata)
    ∷ []

unfoldable pub from_dict : Payload → Result Source
unfolding post_init required_string optional_string optional_mapping
from_dict value = do
  metadata ← optional_mapping value "metadata"
  source_id ← required_string value "source_id"
  source_type ← required_string value "source_type"
  uri ← optional_string value "uri"
  system ← optional_string value "system"
  actor_id ← optional_string value "actor_id"
  session_id ← optional_string value "session_id"
  message_id ← optional_string value "message_id"
  timestamp ← optional_string value "timestamp"
  post_init (record {
    source_id = source_id;
    source_type = source_type;
    uri = uri;
    system = system;
    actor_id = actor_id;
    session_id = session_id;
    message_id = message_id;
    timestamp = timestamp;
    metadata = metadata;
  })

-- A source that its constructor accepts is read back from its payload as it was.
pub from_dict-to_dict_source : (s : Source) → post_init s ≡ ok s → from_dict (to_dict s) ≡ ok s
unfolding from_dict to_dict
from_dict-to_dict_source s valid = ground (arith, from_fields-to_fields s.metadata)
