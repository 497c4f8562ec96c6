-- ===== src/Conflict/Overlap.antt =====
-- When the contexts and the validity intervals of two claims overlap.
use statefuse.Base.{
  String, ℕ, Bool, true, false, ◌&&◌, Option, none, some, if◌then◌else◌, all, ltb, leb,
}
use statefuse.Base.{◌==◌ as nat_eq}
use statefuse.Base.Dict.{get}
use statefuse.Base.Order.{string_key}
use statefuse.Json.{Json, json_eq}
use statefuse.Result.{Result, ok, ◌>>=◌}
use statefuse.Host.{Host, parse_utc_iso}
use statefuse.Model.Access.{Payload}
use statefuse.Model.Validity.{ValidityInterval}
use statefuse.Model.Claim.{Claim}

-- `left[key] == right[key]` where both have the key
abbrev pub same_field : Payload → String × Json → Bool
same_field right (key, value) = elim (get key right) [
  | none ↦ true
  | some other ↦ json_eq value other
]

unfoldable pub contexts_overlap : Payload → Payload → Bool
contexts_overlap left right = all (same_field right) left

-- The instants from which, and up to which, an interval lasts.
abbrev pub Bounds : Type 0
Bounds = Option ℕ × Option ℕ

abbrev pub instant_of : Host → Option String → Result (Option ℕ)
instant_of h none = ok none
instant_of h (some s) = do t ← parse_utc_iso h s; ok (some t)

unfoldable pub validity_bounds : Host → Option ValidityInterval → Result Bounds
validity_bounds h none = ok (none, none)
validity_bounds h (some v) = do
  from ← instant_of h v.valid_from
  until ← instant_of h v.valid_until
  ok (from, until)

-- `from_ is not None and until is not None and until <= from_`, and the same with `==`
abbrev pub ends_before : Option ℕ → Option ℕ → Bool
ends_before (some until) (some from) = leb until from
ends_before _ _ = false

abbrev pub is_empty_interval : Bounds → Bool
is_empty_interval (some from, some until) = nat_eq from until
is_empty_interval _ = false

unfoldable pub validity_bounds_overlap : Bounds → Bounds → Bool
validity_bounds_overlap left right =
    if is_empty_interval left
    then false
    else if is_empty_interval right
    then false
    else if ends_before left.1 right.0
    then false
    else if ends_before right.1 left.0
    then false
    else true

unfoldable pub validity_overlaps :
    Host → Option ValidityInterval → Option ValidityInterval → Result Bool
unfolding validity_bounds validity_bounds_overlap
validity_overlaps h left right = do
  l ← validity_bounds h left
  r ← validity_bounds h right
  ok (validity_bounds_overlap l r)

-- `claim.context.get(key, value) != value` for no item of the context that is asked about
unfoldable pub context_matches : Payload → Payload → Bool
context_matches own asked =
    all
      (λ item. elim (get item.0 own) [
        | none ↦ json_eq item.1 item.1
        | some value ↦ json_eq value item.1
      ])
      asked

-- An instant lies in the bounds: from the first, up to and without the second.
unfoldable pub in_bounds : Bounds → ℕ → Bool
in_bounds (from, until) instant =
    elim from [ none ↦ true | some start ↦ leb start instant ]
    && elim until [ none ↦ true | some stop ↦ ltb instant stop ]

unfoldable pub claim_applies : Host → Claim → Option String → Option Payload → Result Bool
unfolding context_matches in_bounds validity_bounds
claim_applies h c valid_at asked =
    if (elim asked [ none ↦ true | some context ↦ context_matches c.context context ])
    then (elim valid_at [
      | none ↦ ok true
      | some at ↦ do
        instant ← parse_utc_iso h at
        bounds ← validity_bounds h c.validity
        ok (in_bounds bounds instant)
    ])
    else ok false
