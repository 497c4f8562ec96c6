-- ===== src/Ops/Equality.antt =====
-- `==` on operations: the dataclasses compare their fields, which `to_dict` lists.
use statefuse.Base.{Bool, true, ◌≡◌}
use statefuse.Json.{object, json_eq}
use statefuse.Json.Equality.{json_eq_refl, json_eq_sym, json_eq_trans}
use statefuse.Ops.{Op, to_dict}

unfoldable pub op_eq : Op → Op → Bool
op_eq a b = json_eq (object (to_dict a)) (object (to_dict b))

pub op_eq_refl : (a : Op) → op_eq a a ≡ true
unfolding op_eq
op_eq_refl a = json_eq_refl _

pub op_eq_sym : (a b : Op) → op_eq a b ≡ true → op_eq b a ≡ true
unfolding op_eq
op_eq_sym a b = json_eq_sym _ _

pub op_eq_trans : (a b c : Op) → op_eq a b ≡ true → op_eq b c ≡ true → op_eq a c ≡ true
unfolding op_eq
op_eq_trans a b c = json_eq_trans _ _ _
