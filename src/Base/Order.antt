-- ===== src/Base/Order.antt =====
-- Keys of dictionaries and of sorts: an equality test and a total order, as an interface.
-- Python compares texts by code points.
use Prim.Native.Char.{code}
use Prim.Native.String.{String}
use mathlib.Core.Path.{◌≡◌, refl, ap₂}
use mathlib.Core.Logic.{◌↔◌, ◌⊎◌, inl, inr}
use mathlib.Core.Option.{Option, none, some}
use mathlib.Core.Bool.{Bool, true, false, ◌&&◌}
use native.Mathlib.Omega.{arith}
use text.Mathlib.Text.{◌==◌ as str_eq}
use text.Mathlib.TextEquality.{eq_iff, Char-path}
use Prim.Native.Nat.{ℕ}
use statefuse.Base.Tests.{ltb, leb as nat_leb, ◌==◌ as nat_eq, ==_iff, if◌then◌else◌}

pub record Key {ℓ} (A : Type ℓ) : Type ℓ where
  pub beq : A → A → Bool
  pub leb : A → A → Bool
  pub beq_iff : (a b : A) → (beq a b ≡ true) ↔ (a ≡ b)
  pub total : (a b : A) → (leb a b ≡ true) ⊎ (leb b a ≡ true)
  pub antisym : (a b : A) → leb a b ≡ true → leb b a ≡ true → a ≡ b
  pub trans : (a b c : A) → leb a b ≡ true → leb b c ≡ true → leb a c ≡ true

infix 50 ◌==◌ ◌<=◌
abbrev pub ◌==◌ {ℓ} : {A : Type ℓ} ⦃k : Key A⦄ → A → A → Bool
◌==◌ ⦃k⦄ = k.beq

abbrev pub ◌<=◌ {ℓ} : {A : Type ℓ} ⦃k : Key A⦄ → A → A → Bool
◌<=◌ ⦃k⦄ = k.leb

unfoldable pub str_leb : String → String → Bool
str_leb String.[] t = true
str_leb (String.◌∷◌ c s) String.[] = false
str_leb (String.◌∷◌ c s) (String.◌∷◌ d t) =
    if nat_eq (code c) (code d) then str_leb s t else ltb (code c) (code d)

pub str_leb_total : (s t : String) → (str_leb s t ≡ true) ⊎ (str_leb t s ≡ true)
unfolding str_leb
str_leb_total String.[] t = inl refl
str_leb_total (String.◌∷◌ c s) String.[] = inr refl
str_leb_total (String.◌∷◌ c s) (String.◌∷◌ d t) = ground (arith, str_leb_total s t)

pub str_leb_antisym : (s t : String) → str_leb s t ≡ true → str_leb t s ≡ true → s ≡ t
unfolding str_leb
str_leb_antisym String.[] String.[] h k = refl
str_leb_antisym String.[] (String.◌∷◌ d t) h k = cc
str_leb_antisym (String.◌∷◌ c s) String.[] h k = cc
str_leb_antisym (String.◌∷◌ c s) (String.◌∷◌ d t) h k =
    ap₂ String.◌∷◌ (Char-path c d (ground arith))
      (str_leb_antisym s t (ground arith) (ground arith))

pub str_leb_trans : (s t u : String) → str_leb s t ≡ true → str_leb t u ≡ true → str_leb s u ≡ true
unfolding str_leb
str_leb_trans String.[] t u h k = refl
str_leb_trans (String.◌∷◌ c s) String.[] u h k = cc
str_leb_trans (String.◌∷◌ c s) (String.◌∷◌ d t) String.[] h k = cc
str_leb_trans (String.◌∷◌ c s) (String.◌∷◌ d t) (String.◌∷◌ e u) h k =
    ground (arith, str_leb_trans s t u)

instance abbrev pub string_key : Key String
string_key = record {
  beq = str_eq;
  leb = str_leb;
  beq_iff = eq_iff;
  total = str_leb_total;
  antisym = str_leb_antisym;
  trans = str_leb_trans;
}

pub nat_total : (a b : ℕ) → (nat_leb a b ≡ true) ⊎ (nat_leb b a ≡ true)
nat_total a b = ground arith

pub nat_antisym : (a b : ℕ) → nat_leb a b ≡ true → nat_leb b a ≡ true → a ≡ b
nat_antisym a b h k = ground arith

pub nat_trans : (a b c : ℕ) → nat_leb a b ≡ true → nat_leb b c ≡ true → nat_leb a c ≡ true
nat_trans a b c h k = ground arith

instance abbrev pub nat_key : Key ℕ
nat_key = record {
  beq = nat_eq;
  leb = nat_leb;
  beq_iff = ==_iff;
  total = nat_total;
  antisym = nat_antisym;
  trans = nat_trans;
}

-- Pairs are compared by their first parts, and then by the second.
module _ {ℓ κ} {A : Type ℓ} {B : Type κ} ⦃o : Key A⦄ ⦃p : Key B⦄ where
  abbrev pub pair_eq : A × B → A × B → Bool
  pair_eq (a, b) (c, d) = o.beq a c && p.beq b d

  abbrev pub pair_leb : A × B → A × B → Bool
  pair_leb (a, b) (c, d) = if o.beq a c then p.leb b d else o.leb a c

  pub pair_eq_iff : (x y : A × B) → (pair_eq x y ≡ true) ↔ (x ≡ y)
  pair_eq_iff (a, b) (c, d) = (
    λ h. ground (arith, o.beq_iff a c, p.beq_iff b d, h),
    λ h. ground (arith, o.beq_iff a c, p.beq_iff b d, h),
  )

  pub pair_total : (x y : A × B) → (pair_leb x y ≡ true) ⊎ (pair_leb y x ≡ true)
  pair_total (a, b) (c, d) = ground (arith, o.beq_iff a c, o.beq_iff c a, o.total a c, p.total b d)

  pub pair_antisym : (x y : A × B) → pair_leb x y ≡ true → pair_leb y x ≡ true → x ≡ y
  pair_antisym (a, b) (c, d) h k =
      ground (arith, o.beq_iff a c, o.beq_iff c a, o.antisym a c, p.antisym b d)

  pub pair_trans : (x y z : A × B) → pair_leb x y ≡ true → pair_leb y z ≡ true → pair_leb x z ≡ true
  pair_trans (a, b) (c, d) (e, f) h k = ground (
    arith,
    o.beq_iff a c,
    o.beq_iff c e,
    o.beq_iff a e,
    o.trans a c e,
    o.antisym a c,
    p.trans b d f,
  )

  instance abbrev pub pair_key : Key (A × B)
  pair_key = record {
    beq = pair_eq;
    leb = pair_leb;
    beq_iff = pair_eq_iff;
    total = pair_total;
    antisym = pair_antisym;
    trans = pair_trans;
  }

-- `None` stands before every value.
module _ {ℓ} {A : Type ℓ} ⦃o : Key A⦄ where
  abbrev pub option_eq : Option A → Option A → Bool
  option_eq none none = true
  option_eq none (some b) = false
  option_eq (some a) none = false
  option_eq (some a) (some b) = o.beq a b

  abbrev pub option_leb : Option A → Option A → Bool
  option_leb none y = true
  option_leb (some a) none = false
  option_leb (some a) (some b) = o.leb a b

  pub option_eq_iff : (x y : Option A) → (option_eq x y ≡ true) ↔ (x ≡ y)
  option_eq_iff none none = (λ h. refl, λ h. refl)
  option_eq_iff none (some b) = (λ h. cc, λ h. cc)
  option_eq_iff (some a) none = (λ h. cc, λ h. cc)
  option_eq_iff (some a) (some b) =
      (λ h. ground (arith, o.beq_iff a b, h), λ h. ground (arith, o.beq_iff a b, h))

  pub option_total : (x y : Option A) → (option_leb x y ≡ true) ⊎ (option_leb y x ≡ true)
  option_total none y = inl refl
  option_total (some a) none = inr refl
  option_total (some a) (some b) = o.total a b

  pub option_antisym : (x y : Option A) → option_leb x y ≡ true → option_leb y x ≡ true → x ≡ y
  option_antisym none none h k = refl
  option_antisym none (some b) h k = cc
  option_antisym (some a) none h k = cc
  option_antisym (some a) (some b) h k = ground (arith, o.antisym a b h k)

  pub option_trans :
      (x y z : Option A) → option_leb x y ≡ true → option_leb y z ≡ true → option_leb x z ≡ true
  option_trans none y z h k = refl
  option_trans (some a) none z h k = cc
  option_trans (some a) (some b) none h k = cc
  option_trans (some a) (some b) (some c) h k = o.trans a b c h k

  instance abbrev pub option_key : Key (Option A)
  option_key = record {
    beq = option_eq;
    leb = option_leb;
    beq_iff = option_eq_iff;
    total = option_total;
    antisym = option_antisym;
    trans = option_trans;
  }
