-- ===== src/Model/Validity.antt =====
-- `ValidityInterval` of model.py: from one instant up to, and without, another.
use statefuse.Base.{String, ◌≡◌, Option, some, [], ◌∷◌, arith, ltb}
use statefuse.Json.{opt_str}
use statefuse.Result.{Result, ok, value_error, raise_if, ◌>>=◌, ◌>>◌}
use statefuse.Host.{Host, parse_utc_iso}
use statefuse.Model.Access.{Payload, optional_string}

pub record ValidityInterval : Type 0 where
  pub valid_from : Option String
  pub valid_until : Option String

-- The order of the ends is checked only where both are given.
unfoldable pub check_ends : Host → Option String → Option String → Result (Unit {0})
check_ends h (some from) (some until) = do
  start ← parse_utc_iso h from
  stop ← parse_utc_iso h until
  raise_if (ltb stop start) (value_error "valid_from must not be after valid_until.")
check_ends h _ _ = ok tt

unfoldable pub post_init : Host → ValidityInterval → Result ValidityInterval
unfolding check_ends
post_init h v = do check_ends h v.valid_from v.valid_until; ok v

unfoldable pub to_dict : ValidityInterval → Payload
to_dict v = ("valid_from", opt_str v.valid_from) ∷ ("valid_until", opt_str v.valid_until) ∷ []

unfoldable pub from_dict : Host → Payload → Result ValidityInterval
unfolding post_init optional_string
from_dict h value = do
  valid_from ← optional_string value "valid_from"
  valid_until ← optional_string value "valid_until"
  post_init h (record { valid_from = valid_from; valid_until = valid_until })

-- An interval that its constructor accepts is read back from its payload as it was.
pub from_dict-to_dict_validity :
    (h : Host) (v : ValidityInterval) → post_init h v ≡ ok v → from_dict h (to_dict v) ≡ ok v
unfolding from_dict to_dict
from_dict-to_dict_validity h v valid = ground (arith, valid)
