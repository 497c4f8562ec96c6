-- ===== src/Model/Access.antt =====
-- Reading the fields of a payload: `_required_string`, `_optional_string` of model.py, and
-- `_require_str`, `_optional_str`, `_list_of_str`, `_mapping_value` of ops.py.
use statefuse.Base.{String, Option, none, some, List, []}
use statefuse.Base.Dict.{Dict, get, put}
use statefuse.Base.Order.{string_key}
use statefuse.Json.{Json, null, str, arr, obj, as_strings, from_fields}
use statefuse.Result.{Result, ok, raise, value_error, key_error, or_raise}

abbrev pub Payload : Type 0
Payload = Dict String Json

unfoldable pub required_string : Payload → String → Result String
unfolding get
required_string value key = elim (get key value) [
  | some (str s) ↦ ok s
  | _ ↦ raise (value_error "must be a string.")
]

unfoldable pub optional_string : Payload → String → Result (Option String)
unfolding get
optional_string value key = elim (get key value) [
  | none ↦ ok none
  | some null ↦ ok none
  | some (str s) ↦ ok (some s)
  | some _ ↦ raise (value_error "must be a string or null.")
]

-- a list of texts that must be there
unfoldable pub required_strings : Payload → String → Result (List String)
unfolding get
required_strings value key = elim (get key value) [
  | some (arr xs) ↦ or_raise (value_error "must be a list of strings.") (as_strings xs)
  | _ ↦ raise (value_error "must be a list of strings.")
]

unfoldable pub list_of_str : Payload → String → Result (List String)
unfolding get
list_of_str value key = elim (get key value) [
  | none ↦ ok []
  | some (arr xs) ↦ or_raise (value_error "must be a list of strings.") (as_strings xs)
  | some _ ↦ raise (value_error "must be a list of strings.")
]

unfoldable pub mapping_value : Payload → String → Result Payload
unfolding get
mapping_value value key = elim (get key value) [
  | some (obj fs) ↦ ok (from_fields fs)
  | _ ↦ raise (value_error "must be an object.")
]

-- `value.get(key, {})`, refused if it is no mapping
unfoldable pub optional_mapping : Payload → String → Result Payload
unfolding get
optional_mapping value key = elim (get key value) [
  | none ↦ ok []
  | some (obj fs) ↦ ok (from_fields fs)
  | some _ ↦ raise (value_error "must be a mapping.")
]

-- `value[key]`
unfoldable pub item : Payload → String → Result Json
unfolding get
item value key = or_raise (key_error key) (get key value)

-- `if field is not None: payload[key] = field`
unfoldable pub put_some : String → Option String → Payload → Payload
unfolding put
put_some key none d = d
put_some key (some s) d = put key (str s) d
