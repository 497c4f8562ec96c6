-- ===== src/Base/Permute.antt =====
-- A sort by a key that tells the elements apart does not depend on the order of its list.
use mathlib.Core.Path.{◌≡◌, refl, sym, ap, ◌∙◌}
use mathlib.Core.Logic.{inl, inr}
use mathlib.Core.Bool.{false}
use mathlib.Core.List.{List, [], ◌∷◌}
use mathlib.Core.List.{Permᴰ}
use native.Mathlib.Omega.{arith}
use statefuse.Base.Tests.{Bool-cases}
use statefuse.Base.Lists.{In}
use statefuse.Base.Order.{Key, ◌==◌}
use statefuse.Base.Sorted.{insert_by, sorted_by}

module _ {A : Type 0} where
  pub In-Perm : (l m : List A) → Permᴰ l m → (x : A) → In x m → In x l
  In-Perm _ _ Permᴰ.nil x h = h
  In-Perm _ _ (Permᴰ.cons e p) x (inl f) = inl (f ∙ sym e)
  In-Perm _ _ (Permᴰ.cons e p) x (inr h) = inr (In-Perm _ _ p x h)
  In-Perm _ _ (Permᴰ.swap e f) x (inl h) = inr (inl (h ∙ sym f))
  In-Perm _ _ (Permᴰ.swap e f) x (inr (inl h)) = inl (h ∙ sym e)
  In-Perm _ _ (Permᴰ.swap e f) x (inr (inr h)) = inr (inr h)
  In-Perm _ _ (Permᴰ.trans p q) x h = In-Perm _ _ p x (In-Perm _ _ q x h)

module _ {κ} {A : Type 0} {K : Type κ} ⦃o : Key K⦄ (key : A → K) where
  insert_comm :
      (x y : A) (l : List A)
      → (key x == key y) ≡ false
      → insert_by key x (insert_by key y l) ≡ insert_by key y (insert_by key x l)
  unfolding insert_by
  insert_comm x y [] h =
      ground
        (arith, h, o.total (key x) (key y), o.antisym (key x) (key y), o.beq_iff (key x) (key y))
  insert_comm x y (z ∷ l) h = ground (
    arith,
    h,
    o.total (key x) (key y),
    o.antisym (key x) (key y),
    o.beq_iff (key x) (key y),
    o.trans (key x) (key y) (key z),
    o.trans (key y) (key x) (key z),
    o.total (key x) (key z),
    o.total (key y) (key z),
    o.trans (key x) (key z) (key y),
    o.trans (key y) (key z) (key x),
    insert_comm x y l h,
  )

  -- Elements with the same key are the same.
  abbrev pub TellsApart : List A → Type κ
  TellsApart l = (x y : A) → In x l → In y l → key x ≡ key y → x ≡ y

  swap_inserted :
      (a b : A) (l : List A)
      → (key a ≡ key b → a ≡ b)
      → insert_by key a (insert_by key b l) ≡ insert_by key b (insert_by key a l)
  swap_inserted a b l same = elim (Bool-cases (key a == key b)) [
    | inl e ↦
        let p = same ((o.beq_iff (key a) (key b)).0 e) in
        ap (λ z. insert_by key z (insert_by key b l)) p
        ∙ ap (λ z. insert_by key b (insert_by key z l)) (sym p)
    | inr n ↦ insert_comm a b l n
  ]

  pub sorted-Perm : (l m : List A) → Permᴰ l m → TellsApart l → sorted_by key l ≡ sorted_by key m
  unfolding sorted_by
  sorted-Perm _ _ Permᴰ.nil apart = refl
  sorted-Perm _ _ (Permᴰ.cons {b = b} {l₁ = l₁} e p) apart =
      ap (λ z. insert_by key z (sorted_by key l₁)) e
      ∙ ap (insert_by key b) (sorted-Perm _ _ p (λ x y h k. apart x y (inr h) (inr k)))
  sorted-Perm _ _ (Permᴰ.swap {a = a} {b = b} {a' = a'} {l = l} e f) apart =
      swap_inserted a b (sorted_by key l) (apart a b (inl refl) (inr (inl refl)))
      ∙ ap (λ z. insert_by key z (insert_by key a (sorted_by key l))) f
      ∙ ap (λ z. insert_by key a' (insert_by key z (sorted_by key l))) e
  sorted-Perm l _ (Permᴰ.trans p q) apart =
      sorted-Perm _ _ p apart
      ∙ sorted-Perm _ _ q λ x y h k. apart x y (In-Perm _ _ p x h) (In-Perm _ _ p y k)
