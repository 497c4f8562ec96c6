-- ===== src/Base/Stable.antt =====
-- Stability of `sorted`: it commutes with a selection, and with an element that comes last.
use mathlib.Core.Path.{◌≡◌, refl, sym, ap, ◌∙◌}
use mathlib.Core.Logic.{inl, inr}
use mathlib.Core.Bool.{Bool, true, false}
use mathlib.Core.List.{List, [], ◌∷◌, ◌++◌}
use native.Mathlib.Omega.{arith}
use statefuse.Base.Tests.{if◌then◌else◌, Bool-cases}
use statefuse.Base.Lists.{All, All-imp}
use statefuse.Base.Order.{Key, ◌<=◌}
use statefuse.Base.Sorted.{insert_by, sorted_by}

module _ {ℓ} {A : Type ℓ} where
  -- `[x for x in l if p(x)]`
  unfoldable pub pick : (A → Bool) → List A → List A
  pick p [] = []
  pick p (x ∷ l) = let rest = pick p l in if p x then x ∷ rest else rest

  pub pick-append : (p : A → Bool) (l m : List A) → pick p (l ++ m) ≡ pick p l ++ pick p m
  unfolding pick
  pick-append p [] m = refl
  pick-append p (x ∷ l) m = elim (Bool-cases (p x)) [
    | inl e ↦ rw e (ap (λ r. x ∷ r) (pick-append p l m))
    | inr e ↦ rw e (pick-append p l m)
  ]

  pub pick-holds : (p : A → Bool) (l : List A) → All (λ x. p x ≡ true) (pick p l)
  unfolding pick
  pick-holds p [] = tt
  pick-holds p (x ∷ l) = elim (Bool-cases (p x)) [
    | inl e ↦ rw e (e, pick-holds p l)
    | inr e ↦ rw e (pick-holds p l)
  ]

  pub All-pick {κ} : (P : A → Type κ) (p : A → Bool) (l : List A) → All P l → All P (pick p l)
  unfolding pick
  All-pick P p [] h = tt
  All-pick P p (x ∷ l) h = elim (Bool-cases (p x)) [
    | inl e ↦ rw e (h.0, All-pick P p l h.1)
    | inr e ↦ rw e (All-pick P p l h.1)
  ]

module _ {ℓ κ} {A : Type ℓ} {K : Type κ} ⦃o : Key K⦄ (key : A → K) where
  abbrev pub Before : A → A → Type 0
  Before x y = (key x <= key y) ≡ true

  -- Nothing stands after something that is above it.
  abbrev pub IsOrdered : List A → Type 0
  IsOrdered [] = Unit
  IsOrdered (x ∷ l) = All (Before x) l × IsOrdered l

  All-insert_by {μ} :
      (P : A → Type μ) (x : A) (l : List A) → P x → All P l → All P (insert_by key x l)
  unfolding insert_by
  All-insert_by P x [] h k = (h, tt)
  All-insert_by P x (y ∷ l) h k = elim (Bool-cases (key x <= key y)) [
    | inl e ↦ rw e (h, k)
    | inr e ↦ rw e (k.0, All-insert_by P x l h k.1)
  ]

  pub All-sorted_by {μ} : (P : A → Type μ) (l : List A) → All P l → All P (sorted_by key l)
  unfolding sorted_by
  All-sorted_by P [] h = tt
  All-sorted_by P (x ∷ l) h = All-insert_by P x (sorted_by key l) h.0 (All-sorted_by P l h.1)

  flipped : (x y : A) → (key x <= key y) ≡ false → Before y x
  flipped x y h = ground (arith, h, o.total (key x) (key y))

  below-All : (x y : A) (l : List A) → Before x y → All (Before y) l → All (Before x) l
  below-All x y l h k = All-imp (λ z q. o.trans (key x) (key y) (key z) h q) l k

  insert-IsOrdered : (x : A) (l : List A) → IsOrdered l → IsOrdered (insert_by key x l)
  unfolding insert_by
  insert-IsOrdered x [] h = (tt, tt)
  insert-IsOrdered x (y ∷ l) h = elim (Bool-cases (key x <= key y)) [
    | inl e ↦ rw e ((e, below-All x y l e h.0), h)
    | inr e ↦ rw e (All-insert_by (Before y) x l (flipped x y e) h.0, insert-IsOrdered x l h.1)
  ]

  pub sorted-IsOrdered : (l : List A) → IsOrdered (sorted_by key l)
  unfolding sorted_by
  sorted-IsOrdered [] = tt
  sorted-IsOrdered (x ∷ l) = insert-IsOrdered x (sorted_by key l) (sorted-IsOrdered l)

  insert-Before : (x : A) (l : List A) → All (Before x) l → insert_by key x l ≡ x ∷ l
  unfolding insert_by
  insert-Before x [] h = refl
  insert-Before x (y ∷ l) h = rw h.0 refl

  pub sorted_ordered : (l : List A) → IsOrdered l → sorted_by key l ≡ l
  unfolding sorted_by
  sorted_ordered [] h = refl
  sorted_ordered (x ∷ l) h = ap (insert_by key x) (sorted_ordered l h.1) ∙ insert-Before x l h.0

  pick-insert :
      (p : A → Bool) (x : A) (l : List A)
      → IsOrdered l
      → pick p (insert_by key x l) ≡ (if p x then insert_by key x (pick p l) else pick p l)
  unfolding insert_by pick
  pick-insert p x [] h = refl
  pick-insert p x (y ∷ l) h = elim (Bool-cases (key x <= key y)) [
    | inl e ↦ rw e (first e)
    | inr e ↦ rw e (later e (pick-insert p x l h.1))
  ]
    where
      first :
          Before x y
          → pick p (x ∷ y ∷ l) ≡ (if p x then insert_by key x (pick p (y ∷ l)) else pick p (y ∷ l))
      first e = elim (Bool-cases (p x)) [
        | inl q ↦ rw q (
            sym (
              insert-Before x (pick p (y ∷ l))
                (All-pick (Before x) p (y ∷ l) (e, below-All x y l e h.0))))
        | inr q ↦ rw q refl
      ]

      later :
          (key x <= key y) ≡ false
          → pick p (insert_by key x l) ≡ (if p x then insert_by key x (pick p l) else pick p l)
          → pick p (y ∷ insert_by key x l)
            ≡ (if p x then insert_by key x (pick p (y ∷ l)) else pick p (y ∷ l))
      later e rest = ground (arith, e, rest)

  -- To select from a sorted list is to sort the selection.
  pub pick-sorted :
      (p : A → Bool) (l : List A) → pick p (sorted_by key l) ≡ sorted_by key (pick p l)
  unfolding pick sorted_by
  pick-sorted p [] = refl
  pick-sorted p (x ∷ l) =
      pick-insert p x (sorted_by key l) (sorted-IsOrdered l) ∙ elim (Bool-cases (p x)) [
        | inl e ↦ rw e (ap (insert_by key x) (pick-sorted p l))
        | inr e ↦ rw e (pick-sorted p l)
      ]

  -- An element goes behind the last one that is not above it.
  unfoldable insert_last : A → List A → List A
  insert_last r [] = r ∷ []
  insert_last r (y ∷ l) = if key y <= key r then y ∷ insert_last r l else r ∷ y ∷ l

  insert-insert_last :
      (x r : A) (l : List A) → insert_by key x (insert_last r l) ≡ insert_last r (insert_by key x l)
  unfolding insert_by insert_last
  insert-insert_last x r [] = ground arith
  insert-insert_last x r (y ∷ l) = ground (
    arith,
    insert-insert_last x r l,
    o.total (key x) (key y),
    o.total (key y) (key r),
    o.total (key x) (key r),
    o.trans (key x) (key y) (key r),
    o.trans (key y) (key x) (key r),
    o.trans (key y) (key r) (key x),
    o.trans (key x) (key r) (key y),
    o.trans (key r) (key y) (key x),
    o.trans (key r) (key x) (key y),
  )

  sorted_last : (l : List A) (r : A) → sorted_by key (l ++ r ∷ []) ≡ insert_last r (sorted_by key l)
  unfolding sorted_by insert_last insert_by
  sorted_last [] r = refl
  sorted_last (x ∷ l) r =
      ap (insert_by key x) (sorted_last l r) ∙ insert-insert_last x r (sorted_by key l)

  -- An element may be added to the sorted list, instead of to the list.
  pub sorted-append_sorted :
      (l : List A) (r : A) → sorted_by key (sorted_by key l ++ r ∷ []) ≡ sorted_by key (l ++ r ∷ [])
  sorted-append_sorted l r =
      sorted_last (sorted_by key l) r
      ∙ ap (insert_last r) (sorted_ordered (sorted_by key l) (sorted-IsOrdered l))
      ∙ sym (sorted_last l r)
