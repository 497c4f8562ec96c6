-- ===== src/Result.antt =====
-- Python's exceptions as values. The texts of the messages that only repeat an identifier are
-- cut to what is fixed.
use statefuse.Base.{String, ◌≡◌, refl, Bool, true, false, Option, none, some}

pub data Error : Type 0 where
  value_error : String → Error
  type_error : String → Error
  key_error : String → Error
  -- "… collision with different payload": the kind of the identifier, and the identifier
  collision : String → String → Error

-- What a call that may raise comes back with.
pub data Result {ℓ} (A : Type ℓ) : Type ℓ where
  raise : Error → Result A
  ok : A → Result A

module _ {ℓ κ} {A : Type ℓ} {B : Type κ} where
  infixl 5 ◌>>=◌
  -- Statements after a call run where it does not raise.
  abbrev pub ◌>>=◌ : Result A → (A → Result B) → Result B
  raise error >>= next = raise error
  ok value >>= next = next value

-- `if bad: raise e`
abbrev pub raise_if : Bool → Error → Result (Unit {0})
raise_if true e = raise e
raise_if false e = ok tt

module _ {ℓ} {B : Type ℓ} where
  infixl 5 ◌>>◌
  -- A check, and what follows it.
  abbrev pub ◌>>◌ : Result (Unit {0}) → Result B → Result B
  check >> rest = check >>= (λ _. rest)

abbrev pub or_raise {ℓ} : {A : Type ℓ} → Error → Option A → Result A
or_raise e none = raise e
or_raise e (some a) = ok a

-- Inversion of a check that let the rest go on.
pub >>-eq-ok {ℓ} :
    {B : Type ℓ} (m : Result (Unit {0})) (k : Result B) {b : B}
    → (m >> k) ≡ ok b
    → (m ≡ ok tt) × (k ≡ ok b)
>>-eq-ok (ok u) k h = (refl, h)
>>-eq-ok (raise e) k h = cc

module _ {ℓ κ} {A : Type ℓ} {B : Type κ} where
  -- Inversion of a call whose value the rest went on with.
  pub >>=-eq-ok :
      (call : Result A) (next : A → Result B) {result : B}
      → (call >>= next) ≡ ok result
      → (value : A) × (call ≡ ok value) × (next value ≡ ok result)
  >>=-eq-ok (raise error) next returned = cc
  >>=-eq-ok (ok value) next returned = (value, refl, returned)

  -- What follows may be replaced by what does the same.
  pub >>=_same :
      (call : Result A) (next other : A → Result B)
      → ((a : A) → next a ≡ other a)
      → (call >>= next) ≡ (call >>= other)
  >>=_same (raise error) next other same = refl
  >>=_same (ok value) next other same = same value

pub >>-ok {ℓ} : {B : Type ℓ} {m : Result (Unit {0})} {k : Result B} → m ≡ ok tt → (m >> k) ≡ k
>>-ok h = rw h refl

pub ok-injective {ℓ} : {A : Type ℓ} {a b : A} → ok a ≡ ok b → a ≡ b
ok-injective h = cc
