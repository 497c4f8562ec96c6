-- ===== src/Base/Dict.antt =====
-- Python's `dict`: an association list in insertion order. `put` overwrites in place, as Python
-- does, and `IsDict` says that no key stands twice.
use mathlib.Core.Path.{◌≡◌, refl}
use mathlib.Core.Bool.{Bool, true, false}
use mathlib.Core.Option.{Option, none, some}
use mathlib.Core.List.{List, [], ◌∷◌, ◌++◌}
use native.Mathlib.Omega.{arith}
use statefuse.Base.Tests.{if◌then◌else◌, is_some}
use statefuse.Base.Order.{Key, ◌==◌}

abbrev pub Dict {ℓ κ} : Type ℓ → Type κ → Type (ℓ ⊔ κ)
Dict K V = List (K × V)

module _ {ℓ κ} {K : Type ℓ} {V : Type κ} where
  abbrev pub keys : Dict K V → List K
  keys [] = []
  keys ((k, v) ∷ d) = k ∷ keys d

  abbrev pub values : Dict K V → List V
  values [] = []
  values ((k, v) ∷ d) = v ∷ values d

module _ {ℓ} {K : Type ℓ} ⦃o : Key K⦄ where
  pub key_refl : (k : K) → (k == k) ≡ true
  key_refl k = (o.beq_iff k k).1 refl

  pub beq_comm : (a b : K) → (a == b) ≡ (b == a)
  beq_comm a b = ground (arith, o.beq_iff a b, o.beq_iff b a)

abbrev pub or_else {ℓ} : {V : Type ℓ} → Option V → Option V → Option V
or_else none y = y
or_else (some x) y = some x

module _ {ℓ κ} {K : Type ℓ} {V : Type κ} ⦃o : Key K⦄ where
  -- `d.get(k)`
  unfoldable pub get : K → Dict K V → Option V
  get k [] = none
  get k ((j, v) ∷ d) = if j == k then some v else get k d

  -- `d[k] = v`
  unfoldable pub put : K → V → Dict K V → Dict K V
  put k v [] = (k, v) ∷ []
  put k v ((j, w) ∷ d) = if j == k then (j, v) ∷ d else (j, w) ∷ put k v d

  -- `d.pop(k, None)`
  unfoldable pub pop : K → Dict K V → Dict K V
  pop k [] = []
  pop k ((j, w) ∷ d) = if j == k then d else (j, w) ∷ pop k d

  -- `d.update(e)`
  unfoldable pub update : Dict K V → Dict K V → Dict K V
  update d [] = d
  update d ((k, v) ∷ e) = update (put k v d) e

  -- `k in d`
  abbrev pub has : K → Dict K V → Bool
  has k d = is_some (get k d)

  abbrev pub IsDict : Dict K V → Type 0
  IsDict [] = Unit
  IsDict ((k, v) ∷ d) = (has k d ≡ false) × IsDict d

  pub get-put :
      (k j : K) (v : V) (d : Dict K V) → get j (put k v d) ≡ (if k == j then some v else get j d)
  unfolding get put
  get-put k j v [] = refl
  get-put k j v ((i, w) ∷ d) =
      ground (arith, o.beq_iff k j, o.beq_iff i k, o.beq_iff i j, get-put k j v d)

  pub get-put_self : (k : K) (v : V) (d : Dict K V) → get k (put k v d) ≡ some v
  get-put_self k v d = rw (get-put, key_refl) refl

  pub get-pop :
      (k j : K) (d : Dict K V) → IsDict d → get j (pop k d) ≡ (if k == j then none else get j d)
  unfolding get pop
  get-pop k j [] h = ground arith
  get-pop k j ((i, w) ∷ d) h =
      ground (arith, o.beq_iff k j, o.beq_iff i k, o.beq_iff i j, get-pop k j d h.1)

  pub put-IsDict : (k : K) (v : V) (d : Dict K V) → IsDict d → IsDict (put k v d)
  unfolding get put
  put-IsDict k v [] h = (refl, tt)
  put-IsDict k v ((i, w) ∷ d) h =
      ground (arith, o.beq_iff k i, o.beq_iff i k, get-put k i v d, put-IsDict k v d h.1)

  pub pop-IsDict : (k : K) (d : Dict K V) → IsDict d → IsDict (pop k d)
  unfolding get pop
  pop-IsDict k [] h = tt
  pop-IsDict k ((i, w) ∷ d) h = ground (arith, get-pop k i d h.1, pop-IsDict k d h.1)

  pub pop-put_self : (k : K) (v : V) (d : Dict K V) → pop k (put k v d) ≡ pop k d
  unfolding pop put
  pop-put_self k v [] = ground (arith, o.beq_iff k k)
  pop-put_self k v ((i, w) ∷ d) = ground (arith, pop-put_self k v d)

  -- A new key goes to the end.
  pub put_new : (k : K) (v : V) (d : Dict K V) → get k d ≡ none → put k v d ≡ d ++ (k, v) ∷ []
  unfolding get put
  put_new k v [] h = refl
  put_new k v ((i, w) ∷ d) h = ground (arith, put_new k v d)

  pub update-IsDict : (d e : Dict K V) → IsDict d → IsDict (update d e)
  unfolding update
  update-IsDict d [] h = h
  update-IsDict d ((k, v) ∷ e) h = update-IsDict (put k v d) e (put-IsDict k v d h)

  pub get-update :
      (j : K) (d e : Dict K V) → IsDict e → get j (update d e) ≡ or_else (get j e) (get j d)
  unfolding get update
  get-update j d [] h = refl
  get-update j d ((k, v) ∷ e) h =
      ground (arith, o.beq_iff k j, get-update j (put k v d) e h.1, get-put k j v d)
