-- ===== src/Json/Equality.antt =====
-- `==` on JSON values is an equivalence.
use mathlib.Core.Bool.{decide_iff}
use statefuse.Base.{◌≡◌, refl, sym, ◌∙◌, true, ◌↔◌}
use statefuse.Json.{Json, Json-discrete, equality_key, json_eq}

pub json_eq_iff : (a b : Json) → (json_eq a b ≡ true) ↔ (equality_key a ≡ equality_key b)
unfolding json_eq
json_eq_iff a b = decide_iff (Json-discrete (equality_key a) (equality_key b))

pub json_eq_refl : (a : Json) → json_eq a a ≡ true
json_eq_refl a = (json_eq_iff a a).1 refl

pub json_eq_sym : (a b : Json) → json_eq a b ≡ true → json_eq b a ≡ true
json_eq_sym a b h = (json_eq_iff b a).1 (sym ((json_eq_iff a b).0 h))

pub json_eq_trans : (a b c : Json) → json_eq a b ≡ true → json_eq b c ≡ true → json_eq a c ≡ true
json_eq_trans a b c h k = (json_eq_iff a c).1 ((json_eq_iff a b).0 h ∙ (json_eq_iff b c).0 k)
