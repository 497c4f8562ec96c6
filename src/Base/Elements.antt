-- ===== src/Base/Elements.antt =====
-- What a sort keeps of its list, and the lists that a sort leaves as they are.
use mathlib.Core.Path.{◌≡◌, refl, sym, ap, ◌∙◌}
use mathlib.Core.Logic.{◌↔◌, ◌⊎◌, inl, inr}
use mathlib.Core.Bool.{Bool, true, ◌||◌}
use mathlib.Core.Option.{some}
use mathlib.Core.List.{List, [], ◌∷◌}
use native.Mathlib.Omega.{arith}
use statefuse.Base.Tests.{Bool-cases, Option-cases}
use statefuse.Base.Lists.{In, All, any}
use statefuse.Base.Order.{Key, ◌<=◌}
use statefuse.Base.Dict.{Dict, keys, get}
use statefuse.Base.Sorted.{insert_by, sorted_by, sorted, select, in_order}

module _ {ℓ} {K : Type ℓ} ⦃o : Key K⦄ (p : K → Bool) where
  any-insert : (x : K) (l : List K) → any p (insert_by (λ y. y) x l) ≡ p x || any p l
  unfolding insert_by
  any-insert x [] = refl
  any-insert x (y ∷ l) = ground (arith, any-insert x l)

  pub any-sorted : (l : List K) → any p (sorted l) ≡ any p l
  unfolding sorted
  any-sorted [] = refl
  any-sorted (x ∷ l) = ground (arith, any-insert x (sorted l), any-sorted l)

module _ {ℓ} {K : Type ℓ} ⦃o : Key K⦄ where
  All-insert {κ} :
      (P : K → Type κ) (x : K) (l : List K) → P x → All P l → All P (insert_by (λ y. y) x l)
  unfolding insert_by
  All-insert P x [] h k = (h, tt)
  All-insert P x (y ∷ l) h k = elim (Bool-cases (x <= y)) [
    | inl e ↦ rw e (h, k)
    | inr e ↦ rw e (k.0, All-insert P x l h k.1)
  ]

  pub All-sorted {κ} : (P : K → Type κ) (l : List K) → All P l → All P (sorted l)
  unfolding sorted
  All-sorted P [] h = tt
  All-sorted P (x ∷ l) h = All-insert P x (sorted l) h.0 (All-sorted P l h.1)

  -- Each element is followed by none below it.
  abbrev pub Climbs : K → List K → Type 0
  Climbs x [] = Unit
  Climbs x (y ∷ l) = ((x <= y) ≡ true) × Climbs y l

  abbrev pub IsClimbing : List K → Type 0
  IsClimbing [] = Unit
  IsClimbing (x ∷ l) = Climbs x l

  Climbs-insert :
      (y x : K) (l : List K) → (y <= x) ≡ true → Climbs y l → Climbs y (insert_by (λ z. z) x l)
  unfolding insert_by
  Climbs-insert y x [] h b = (h, tt)
  Climbs-insert y x (z ∷ l) h b = ground (arith, o.total x z, Climbs-insert z x l)

  insert-IsClimbing : (x : K) (l : List K) → IsClimbing l → IsClimbing (insert_by (λ z. z) x l)
  unfolding insert_by
  insert-IsClimbing x [] h = tt
  insert-IsClimbing x (y ∷ l) h = ground (arith, o.total x y, Climbs-insert y x l)

  pub sorted-IsClimbing : (l : List K) → IsClimbing (sorted l)
  unfolding sorted
  sorted-IsClimbing [] = tt
  sorted-IsClimbing (x ∷ l) = insert-IsClimbing x (sorted l) (sorted-IsClimbing l)

  -- Sorting a list that climbs changes nothing.
  pub sorted_climbing : (x : K) (l : List K) → Climbs x l → sorted (x ∷ l) ≡ x ∷ l
  unfolding sorted insert_by
  sorted_climbing x [] h = refl
  sorted_climbing x (y ∷ l) h = ground (arith, h.0, sorted_climbing y l h.1)

module _ {κ} {A : Type 0} {K : Type κ} ⦃o : Key K⦄ (key : A → K) where
  In-insert : (x y : A) (l : List A) → In x (insert_by key y l) ↔ ((x ≡ y) ⊎ In x l)
  unfolding insert_by
  In-insert x y [] = ground arith
  In-insert x y (z ∷ l) = elim (Bool-cases (key y <= key z)) [
    | inl h ↦ ground (arith, h)
    | inr h ↦ ground (arith, h, In-insert x y l)
  ]

  -- A sort has the elements of its list.
  pub In-sorted : (x : A) (l : List A) → In x (sorted_by key l) ↔ In x l
  unfolding sorted_by
  In-sorted x [] = (λ h. h, λ h. h)
  In-sorted x (y ∷ l) = ground (arith, In-insert x y (sorted_by key l), In-sorted x l)

module _ {K V : Type 0} ⦃o : Key K⦄ (d : Dict K V) where
  In-select : (v : V) (ks : List K) → In v (select d ks) → (k : K) × (get k d ≡ some v)
  unfolding select
  In-select v [] h = absurd h
  In-select v (k ∷ ks) h = elim (Option-cases (get k d)) [
    | inl absent ↦ In-select v ks (ground (arith, absent, h))
    | inr (w, there) ↦
        let inside : In v (w ∷ select d ks) = ground (arith, there, h) in
        elim inside [ inl e ↦ (k, there ∙ ap some (sym e)) | inr later ↦ In-select v ks later ]
  ]

  -- What `[d[k] for k in sorted(d)]` lists is stored.
  pub In-in_order : (v : V) → In v (in_order d) → (k : K) × (get k d ≡ some v)
  unfolding in_order
  In-in_order v h = In-select v (sorted (keys d)) h
