-- ===== src/Base/Sorted.antt =====
-- Python's `sorted`, a stable sort by a key, and `[d[k] for k in sorted(d)]`.
use mathlib.Core.Path.{◌≡◌, refl, sym, ap, ap₂, ◌∙◌}
use mathlib.Core.Logic.{inl, inr}
use mathlib.Core.Bool.{Bool, true, false, ◌||◌}
use mathlib.Core.Option.{none, some}
use mathlib.Core.List.{List, [], ◌∷◌}
use native.Mathlib.Omega.{arith}
use statefuse.Base.Tests.{if◌then◌else◌, is_some}
use statefuse.Base.Order.{Key, ◌==◌, ◌<=◌}
use statefuse.Base.Dict.{Dict, IsDict, keys, get, key_refl}

module _ {ℓ κ} {A : Type ℓ} {K : Type κ} ⦃o : Key K⦄ (key : A → K) where
  -- An element goes in front of the first one that is not below it, so equal keys keep their order.
  unfoldable pub insert_by : A → List A → List A
  insert_by x [] = x ∷ []
  insert_by x (y ∷ l) = if key x <= key y then x ∷ y ∷ l else y ∷ insert_by x l

  unfoldable pub sorted_by : List A → List A
  unfolding insert_by
  sorted_by [] = []
  sorted_by (x ∷ l) = insert_by x (sorted_by l)

module _ {ℓ} {K : Type ℓ} ⦃o : Key K⦄ where
  unfoldable pub sorted : List K → List K
  unfolding sorted_by
  sorted = sorted_by (λ k. k)

  unfoldable pub contains : K → List K → Bool
  contains k [] = false
  contains k (x ∷ l) = x == k || contains k l

  -- `x` is strictly below each element.
  abbrev pub Below : K → List K → Type 0
  Below x [] = Unit
  Below x (y ∷ l) = ((x <= y) ≡ true) × ((x == y) ≡ false) × Below x l

  abbrev pub IsAscending : List K → Type 0
  IsAscending [] = Unit
  IsAscending (x ∷ l) = Below x l × IsAscending l

  contains-insert :
      (k x : K) (l : List K) → contains k (insert_by (λ y. y) x l) ≡ x == k || contains k l
  unfolding contains insert_by
  contains-insert k x [] = refl
  contains-insert k x (y ∷ l) = ground (arith, contains-insert k x l)

  pub contains-sorted : (k : K) (l : List K) → contains k (sorted l) ≡ contains k l
  unfolding sorted contains
  contains-sorted k [] = refl
  contains-sorted k (x ∷ l) = ground (arith, contains-insert k x (sorted l), contains-sorted k l)

  Below-insert :
      (y x : K) (l : List K)
      → (y <= x) ≡ true
      → (y == x) ≡ false
      → Below y l
      → Below y (insert_by (λ z. z) x l)
  unfolding insert_by
  Below-insert y x [] h k b = (h, k, tt)
  Below-insert y x (z ∷ l) h k b = ground (arith, Below-insert y x l)

  Below-trans : (x y : K) (l : List K) → (x <= y) ≡ true → (x == y) ≡ false → Below y l → Below x l
  Below-trans x y [] h k b = tt
  Below-trans x y (z ∷ l) h k b = (
    o.trans x y z h b.0,
    ground (arith, o.antisym x y h, o.beq_iff x z, o.beq_iff x y, b.0),
    Below-trans x y l h k b.2,
  )

  insert-IsAscending :
      (x : K) (l : List K)
      → contains x l ≡ false
      → IsAscending l
      → IsAscending (insert_by (λ z. z) x l)
  unfolding insert_by contains
  insert-IsAscending x [] h a = (tt, tt)
  insert-IsAscending x (y ∷ l) h a = ground (
    arith,
    o.total x y,
    o.beq_iff x y,
    o.beq_iff y x,
    Below-trans x y l,
    Below-insert y x l,
    insert-IsAscending x l,
  )

  abbrev pub IsDistinct : List K → Type 0
  IsDistinct [] = Unit
  IsDistinct (x ∷ l) = (contains x l ≡ false) × IsDistinct l

  pub sorted-IsAscending : (l : List K) → IsDistinct l → IsAscending (sorted l)
  unfolding sorted
  sorted-IsAscending [] h = tt
  sorted-IsAscending (x ∷ l) h =
      insert-IsAscending x (sorted l) (contains-sorted x l ∙ h.0) (sorted-IsAscending l h.1)

  contains_of_Below : (x k : K) (l : List K) → Below x l → (k <= x) ≡ true → contains k l ≡ false
  unfolding contains
  contains_of_Below x k [] b h = refl
  contains_of_Below x k (y ∷ l) b h = ground (
    arith,
    contains_of_Below x k l b.2 h,
    o.beq_iff y k,
    o.beq_iff x y,
    o.antisym x y b.0,
    o.trans y x y,
  )

  contains-le : (x k : K) (l : List K) → Below x l → contains k l ≡ true → (x <= k) ≡ true
  unfolding contains
  contains-le x k [] b h = cc
  contains-le x k (y ∷ l) b h = ground (arith, o.beq_iff y k, contains-le x k l b.2, b.0)

  module _ (x : K) (xs : List K) (y : K) (ys : List K) where
    -- Two ascending lists with the same members begin with the same one, and go on so.
    same_head :
        IsAscending (x ∷ xs)
        → IsAscending (y ∷ ys)
        → ((k : K) → contains k (x ∷ xs) ≡ contains k (y ∷ ys))
        → x ≡ y
    unfolding contains
    same_head a b h = ground (
      arith,
      h x,
      h y,
      key_refl x,
      key_refl y,
      o.beq_iff x y,
      o.beq_iff y x,
      contains-le y x ys b.0,
      contains-le x y xs a.0,
      o.antisym x y,
    )

    same_tail :
        IsAscending (x ∷ xs)
        → IsAscending (y ∷ ys)
        → ((k : K) → contains k (x ∷ xs) ≡ contains k (y ∷ ys))
        → (k : K) → contains k xs ≡ contains k ys
    unfolding contains
    same_tail a b h k = ground (
      arith,
      same_head a b h,
      h k,
      o.beq_iff x k,
      o.beq_iff y k,
      key_le k,
      contains_of_Below x k xs a.0,
      contains_of_Below y k ys b.0,
    )
      where
        key_le : (j : K) → (j <= j) ≡ true
        key_le j = elim (o.total j j) [ inl p ↦ p | inr p ↦ p ]

  pub IsAscending-eq :
      (xs ys : List K)
      → IsAscending xs
      → IsAscending ys
      → ((k : K) → contains k xs ≡ contains k ys)
      → xs ≡ ys
  unfolding contains
  IsAscending-eq [] [] a b h = refl
  IsAscending-eq [] (y ∷ ys) a b h = absurd (ground (arith, h y, key_refl y))
  IsAscending-eq (x ∷ xs) [] a b h = absurd (ground (arith, h x, key_refl x))
  IsAscending-eq (x ∷ xs) (y ∷ ys) a b h =
      ap₂ ◌∷◌ (same_head x xs y ys a b h) (IsAscending-eq xs ys a.1 b.1 (same_tail x xs y ys a b h))

module _ {ℓ κ} {K : Type ℓ} {V : Type κ} ⦃o : Key K⦄ where
  pub contains-keys : (k : K) (d : Dict K V) → contains k (keys d) ≡ is_some (get k d)
  unfolding contains get
  contains-keys k [] = refl
  contains-keys k ((j, v) ∷ d) = ground (arith, contains-keys k d)

  pub keys-IsDistinct : (d : Dict K V) → IsDict d → IsDistinct (keys d)
  keys-IsDistinct [] h = tt
  keys-IsDistinct ((j, v) ∷ d) h = (contains-keys j d ∙ h.0, keys-IsDistinct d h.1)

  -- `[d[k] for k in ks]`; a key that is missing would raise, and adds nothing here.
  unfoldable pub select : Dict K V → List K → List V
  select d [] = []
  select d (k ∷ ks) = let rest = select d ks in elim (get k d) [ none ↦ rest | some v ↦ v ∷ rest ]

  -- `[d[k] for k in sorted(d)]`
  unfoldable pub in_order : Dict K V → List V
  in_order d = select d (sorted (keys d))

  select-eq :
      (d e : Dict K V) (ks : List K) → ((k : K) → get k d ≡ get k e) → select d ks ≡ select e ks
  unfolding select
  select-eq d e [] h = refl
  select-eq d e (k ∷ ks) h = ground (arith, h k, select-eq d e ks h)

  sorted-keys_eq :
      (d e : Dict K V)
      → IsDict d
      → IsDict e
      → ((k : K) → get k d ≡ get k e)
      → sorted (keys d) ≡ sorted (keys e)
  sorted-keys_eq d e v w h =
      IsAscending-eq (sorted (keys d)) (sorted (keys e))
        (sorted-IsAscending (keys d) (keys-IsDistinct d v))
        (sorted-IsAscending (keys e) (keys-IsDistinct e w))
        λ k.
          contains-sorted k (keys d)
          ∙ contains-keys k d
          ∙ ap is_some (h k)
          ∙ sym (contains-keys k e)
          ∙ sym (contains-sorted k (keys e))

  -- The values in key order depend on what is stored, and not on the order of insertion.
  pub in_order-eq :
      (d e : Dict K V)
      → IsDict d
      → IsDict e
      → ((k : K) → get k d ≡ get k e)
      → in_order d ≡ in_order e
  unfolding in_order
  in_order-eq d e v w h = rw (sorted-keys_eq d e v w h) (select-eq d e (sorted (keys e)) h)

module _ {ℓ} {K : Type ℓ} ⦃o : Key K⦄ where
  not_contains_of_Below : (x : K) (l : List K) → Below x l → contains x l ≡ false
  not_contains_of_Below x l b =
      contains_of_Below x x l b (elim (o.total x x) [ inl p ↦ p | inr p ↦ p ])

  pub IsAscending-IsDistinct : (l : List K) → IsAscending l → IsDistinct l
  IsAscending-IsDistinct [] a = tt
  IsAscending-IsDistinct (x ∷ l) a = (not_contains_of_Below x l a.0, IsAscending-IsDistinct l a.1)
