-- ===== src/Host.antt =====
-- What the program takes from Python's standard library and the model leaves open: the clock
-- format, the digests, and the conversions of values that are of another type than expected.
use statefuse.Base.{ℕ, String, Option}
use statefuse.Base.Int.{ℤ}
use statefuse.Json.{Json}
use statefuse.Result.{Result, value_error, or_raise}

pub record Host : Type 0 where
  -- `parse_utc_iso`, an instant in microseconds since the first of the year 1; `none` raises
  pub instant : String → Option ℕ
  -- `datetime.timestamp()` of an instant, a float of seconds, read as its place among the floats
  pub timestamp : ℕ → ℕ
  -- `digest_json_value`: SHA-256 of the canonical JSON text
  pub digest_json_value : Json → String
  -- HMAC-SHA-256 of the canonical JSON text under a secret
  pub hmac : String → Json → String
  -- `str(value)` and `float(value)`
  pub to_str : Json → String
  pub to_float : Json → Option ℤ

module _ (h : Host) where
  abbrev pub parse_utc_iso : String → Result ℕ
  parse_utc_iso s = or_raise (value_error "Invalid isoformat string") (h.instant s)

  abbrev pub float_of : Json → Result ℤ
  float_of v = or_raise (value_error "could not convert to float") (h.to_float v)
