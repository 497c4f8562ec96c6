-- ===== src/Model/Evidence.antt =====
-- `Evidence` of model.py.
use statefuse.Base.{String, ◌≡◌, Option, none, some, [], ◌∷◌, arith, inl, inr, Option-cases}
use statefuse.Base.Dict.{get}
use statefuse.Base.Order.{string_key}
use statefuse.Json.{Json, null, str, object, opt_str, from_fields-to_fields}
use statefuse.Result.{Result, ok, ◌>>=◌}
use statefuse.Host.{Host}
use statefuse.Model.Access.{Payload, optional_string, optional_mapping, item, put_some}

pub record Evidence : Type 0 where
  pub evidence_id : String
  pub pointer : Option String
  pub metadata : Payload
  pub source_id : Option String
  pub content_digest : Option String

unfoldable pub to_dict : Evidence → Payload
unfolding put_some
to_dict e = put_some "content_digest" e.content_digest (
    put_some "source_id" e.source_id (
      ("evidence_id", str e.evidence_id)
      ∷ ("pointer", opt_str e.pointer)
      ∷ ("metadata", object e.metadata)
      ∷ []))

-- `None if value.get("pointer") is None else str(value["pointer"])`
abbrev pointer_of : Host → Option Json → Option String
pointer_of h none = none
pointer_of h (some null) = none
pointer_of h (some v) = some (h.to_str v)

unfoldable pub from_dict : Host → Payload → Result Evidence
unfolding item optional_string optional_mapping get
from_dict h value = do
  metadata ← optional_mapping value "metadata"
  evidence_id ← item value "evidence_id"
  source_id ← optional_string value "source_id"
  content_digest ← optional_string value "content_digest"
  ok (record {
    evidence_id = h.to_str evidence_id;
    pointer = pointer_of h (get "pointer" value);
    metadata = metadata;
    source_id = source_id;
    content_digest = content_digest;
  })

-- Evidence is read back from its payload as it was, if `str` leaves texts alone: a field that is
-- left out of the payload comes back as missing.
pub from_dict-to_dict_evidence :
    (h : Host) (e : Evidence)
    → ((s : String) → h.to_str (str s) ≡ s)
    → from_dict h (to_dict e) ≡ ok e
unfolding from_dict to_dict
from_dict-to_dict_evidence h e same = elim (Option-cases e.pointer) [
  | inl p ↦ ground (arith, p, same e.evidence_id, from_fields-to_fields e.metadata)
  | inr (s, p) ↦ ground (arith, p, same s, same e.evidence_id, from_fields-to_fields e.metadata)
]
