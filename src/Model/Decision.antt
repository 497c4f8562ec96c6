-- ===== src/Model/Decision.antt =====
-- `Decision` of model.py.
use statefuse.Base.{String, ◌≡◌, Option, none, some, [], ◌∷◌, arith}
use statefuse.Base.Dict.{get}
use statefuse.Base.Order.{string_key}
use statefuse.Json.{Json, str, object, from_fields-to_fields}
use statefuse.Result.{Result, ok, ◌>>=◌}
use statefuse.Host.{Host}
use statefuse.Model.Access.{Payload, optional_mapping, item}

pub record Decision : Type 0 where
  pub decision_id : String
  pub scope : String
  pub payload : Payload
  pub timestamp : String

unfoldable pub to_dict : Decision → Payload
to_dict d =
    ("decision_id", str d.decision_id)
    ∷ ("scope", str d.scope)
    ∷ ("payload", object d.payload)
    ∷ ("timestamp", str d.timestamp)
    ∷ []

-- `value.get("timestamp", "")`
abbrev timestamp_of : Option Json → Json
timestamp_of none = str ""
timestamp_of (some v) = v

unfoldable pub from_dict : Host → Payload → Result Decision
unfolding item optional_mapping get
from_dict h value = do
  payload ← optional_mapping value "payload"
  decision_id ← item value "decision_id"
  scope ← item value "scope"
  ok (record {
    decision_id = h.to_str decision_id;
    scope = h.to_str scope;
    payload = payload;
    timestamp = h.to_str (timestamp_of (get "timestamp" value));
  })

-- A decision is read back from its payload as it was, if `str` leaves texts alone.
pub from_dict-to_dict_decision :
    (h : Host) (d : Decision)
    → ((s : String) → h.to_str (str s) ≡ s)
    → from_dict h (to_dict d) ≡ ok d
unfolding from_dict to_dict
from_dict-to_dict_decision h d same =
    ground
      (arith, same d.decision_id, same d.scope, same d.timestamp, from_fields-to_fields d.payload)
