-- ===== src/Json.antt =====
-- JSON values, as `JSONValue` of model.py, and Python's equality of them.
-- An object is a `dict` in insertion order. A float is counted in millionths.
pub mod Equality
use mathlib.Core.Option
use mathlib.Core.Bool.{decide, false≢true}
use native.Mathlib.Decide.{ℕ_discrete}
use text.Mathlib.Text.{◌==◌}
use statefuse.Base.{
  ◌↔◌, ℕ, String, ◌≡◌, refl, sym, ◌∙◌, inl, inr, eq_iff, Bool-cases, ap, Bool, true, false, Option,
  none, some, List, [], ◌∷◌, if◌then◌else◌,
}
use statefuse.Base.Int.{ℤ, pos, negsuc, ◌*ℤ◌}
use statefuse.Base.Order.{string_key, ◌<=◌}
use statefuse.Base.Dict.{Dict}

mutual
  pub data Json : Type 0 where
    null : Json
    boolean : Bool → Json
    int : ℤ → Json
    float : ℤ → Json
    str : String → Json
    arr : Items → Json
    obj : Fields → Json

  pub data Items : Type 0 where
    nil : Items
    cons : Json → Items → Items

  pub data Fields : Type 0 where
    end : Fields
    field : String → Json → Fields → Fields

abbrev pub to_fields : Dict String Json → Fields
to_fields [] = end
to_fields ((k, v) ∷ d) = field k v (to_fields d)

abbrev pub from_fields : Fields → Dict String Json
from_fields end = []
from_fields (field k v fs) = (k, v) ∷ from_fields fs

abbrev pub to_items : List Json → Items
to_items [] = nil
to_items (x ∷ xs) = cons x (to_items xs)

abbrev pub from_items : Items → List Json
from_items nil = []
from_items (cons x xs) = x ∷ from_items xs

abbrev pub object : Dict String Json → Json
object d = obj (to_fields d)

-- An optional text, `null` when there is none.
abbrev pub opt_str : Option String → Json
opt_str none = null
opt_str (some s) = str s

abbrev pub millionths : ℤ
millionths = pos 1000000

unfoldable pub insert_field : String → Json → Fields → Fields
insert_field k v end = field k v end
insert_field k v (field j w fs) =
    if k <= j then field k v (field j w fs) else field j w (insert_field k v fs)

-- Values are equal in Python when these keys are: `True == 1 == 1.0`, and an object forgets the
-- order of its fields.
unfoldable mutual
  unfolding insert_field ◌*ℤ◌

  pub equality_key : Json → Json
  equality_key null = null
  equality_key (boolean b) = float (if b then millionths else pos 0)
  equality_key (int n) = float (n *ℤ millionths)
  equality_key (float x) = float x
  equality_key (str s) = str s
  equality_key (arr xs) = arr (items_key xs)
  equality_key (obj fs) = obj (fields_key fs)

  pub items_key : Items → Items
  items_key nil = nil
  items_key (cons x xs) = cons (equality_key x) (items_key xs)

  pub fields_key : Fields → Fields
  fields_key end = end
  fields_key (field k v fs) = insert_field k (equality_key v) (fields_key fs)

ℤ-discrete : Discrete ℤ
unfolding ℕ_discrete
ℤ-discrete = hlevel ℕ_discrete

-- A decision from a test.
unfoldable decided : {P : Type 0} (b : Bool) → (b ≡ true) ↔ P → Dec P
decided true h = yes (h.0 refl)
decided false h = no (λ p. false≢true (h.1 p))

String-discrete : Discrete String
unfolding decided
String-discrete s t = decided (s == t) (eq_iff s t)

Json-discrete : Discrete Json
unfolding ℤ-discrete String-discrete
Json-discrete = hlevel (ℤ-discrete, String-discrete)

-- `left == right`
unfoldable pub json_eq : Json → Json → Bool
unfolding Json-discrete equality_key decide
json_eq left right = decide (Json-discrete (equality_key left) (equality_key right))

-- What a `dict` copied into a value and read back is.
pub from_fields-to_fields : (d : Dict String Json) → from_fields (to_fields d) ≡ d
from_fields-to_fields [] = refl
from_fields-to_fields ((k, v) ∷ d) = ap (◌∷◌ (k, v)) (from_fields-to_fields d)

abbrev pub strings : List String → Items
strings [] = nil
strings (s ∷ l) = cons (str s) (strings l)

-- The texts of a list, if it holds nothing else.
unfoldable pub as_strings : Items → Option (List String)
as_strings nil = some []
as_strings (cons (str s) xs) = Option.map (◌∷◌ s) (as_strings xs)
as_strings (cons x xs) = none

pub as_strings-strings : (l : List String) → as_strings (strings l) ≡ some l
unfolding as_strings
as_strings-strings [] = refl
as_strings-strings (s ∷ l) = ap (Option.map (◌∷◌ s)) (as_strings-strings l)
