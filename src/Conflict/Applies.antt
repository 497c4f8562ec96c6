-- ===== src/Conflict/Applies.antt =====
-- Overlap against applicability: two claims overlap where there is a question that both answer.
use statefuse.Base.{
  String, ℕ, ◌≡◌, refl, Bool, true, false, ◌&&◌, ◌≤◌, ◌<◌, ◌↔◌, none, some, [], ◌∷◌, arith, all,
  eq_iff, max, inl, inr, Option-cases, Bool-cases, subst,
}
use statefuse.Base.Dict.{get, has, key_refl, update, IsDict, get-update, update-IsDict}
use statefuse.Base.Order.{string_key, ◌==◌}
use statefuse.Json.{Json, json_eq}
use statefuse.Json.Equality.{json_eq_refl, json_eq_sym, json_eq_trans}
use statefuse.Model.Access.{Payload}
use statefuse.Conflict.Overlap.{
  Bounds, validity_bounds_overlap, in_bounds, contexts_overlap, context_matches, same_field,
}

-- The first instant of an interval is not after its end, and its end is not the first instant of
-- the clock.
abbrev pub IsBounds : Bounds → Type 0
IsBounds (some from, some until) = (from ≤ until) × (0 < until)
IsBounds (none, some until) = 0 < until
IsBounds _ = Unit

abbrev pub start_of : Bounds → ℕ
start_of (none, until) = 0
start_of (some from, until) = from

-- Two intervals, neither of which begins after its end or ends at the first instant of the clock,
-- overlap exactly if some instant lies in both.
pub validity_bounds_overlap_iff :
    (left right : Bounds)
    → IsBounds left
    → IsBounds right
    → (validity_bounds_overlap left right ≡ true)
      ↔ ((t : ℕ) × (in_bounds left t ≡ true) × (in_bounds right t ≡ true))
unfolding validity_bounds_overlap in_bounds
validity_bounds_overlap_iff left right l r = (
  λ h. let both = later left right l r h in (max (start_of left) (start_of right), both.0, both.1),
  λ m. meet left right m.0 m.1 m.2,
)
  where
    later :
        (a b : Bounds)
        → IsBounds a
        → IsBounds b
        → validity_bounds_overlap a b ≡ true
        → (in_bounds a (max (start_of a) (start_of b)) ≡ true)
          × (in_bounds b (max (start_of a) (start_of b)) ≡ true)
    later a b l r h = ground (arith, l, r, h)

    meet :
        (a b : Bounds) (t : ℕ)
        → in_bounds a t ≡ true
        → in_bounds b t ≡ true
        → validity_bounds_overlap a b ≡ true
    meet a b t l r = ground (arith, l, r)

same_item :
    (i k : String) (w v : Json)
    → (i == k) ≡ true
    → get k ((i, w) ∷ []) ≡ some v
    → ◌≡◌ {A = String × Json} (i, w) (k, v)
unfolding get
same_item i k w v here e = ground (arith, here, e, eq_iff i k)

both_true : {a b : Bool} → a ≡ true → b ≡ true → (a && b) ≡ true
both_true h k = ground (arith, h, k)

missing : (i : String) (d : Payload) → has i d ≡ false → get i d ≡ none
missing i d h = ground (arith, h)

module _ (p : String × Json → Bool) where
  all-get :
      (d : Payload) (k : String) (v : Json) → all p d ≡ true → get k d ≡ some v → p (k, v) ≡ true
  unfolding get
  all-get [] k v h e = cc
  all-get ((i, w) ∷ d) k v h e = elim (Bool-cases (i == k)) [
    | inl here ↦
        subst (λ x. p x ≡ true) (same_item i k w v here (rw here (ground (arith, here, e))))
          (ground (arith, h))
    | inr there ↦ all-get d k v (ground (arith, h)) (ground (arith, there, e))
  ]

  first_item : (d : Payload) (i : String) (w : Json) → get i ((i, w) ∷ d) ≡ some w
  unfolding get
  first_item d i w = rw (key_refl i) refl

  later_item :
      (d : Payload) (i k : String) (w v : Json)
      → get i d ≡ none
      → get k d ≡ some v
      → get k ((i, w) ∷ d) ≡ some v
  unfolding get
  later_item d i k w v absent e = ground (arith, absent, e, eq_iff i k)

  get-all :
      (d : Payload)
      → IsDict d
      → ((k : String) (v : Json) → get k d ≡ some v → p (k, v) ≡ true)
      → all p d ≡ true
  unfolding get
  get-all [] dict h = refl
  get-all ((i, w) ∷ d) dict h =
      both_true (h i w (first_item d i w))
        (get-all d dict.1 (λ k v e. h k v (later_item d i k w v (missing i d dict.0) e)))

-- The context names every field that both contexts have.
abbrev pub Asks : Payload → Payload → Payload → Type 0
Asks left right q =
    (k : String) (v w : Json)
    → get k left ≡ some v
    → get k right ≡ some w
    → (x : Json) × (get k q ≡ some x)

module _ (left right : Payload) (dl : IsDict left) (dr : IsDict right) where
  abbrev matched : Payload → String × Json → Bool
  matched own item = elim (get item.0 own) [
    | none ↦ json_eq item.1 item.1
    | some value ↦ json_eq value item.1
  ]

  left_matches :
      contexts_overlap left right ≡ true
      → (k : String) (v : Json) → get k (update left right) ≡ some v
      → matched left (k, v) ≡ true
  unfolding contexts_overlap
  left_matches h k v e = elim (Option-cases (get k left)) [
    | inl absent ↦ ground (arith, absent, json_eq_refl v)
    | inr (x, there) ↦ ground (
      arith,
      there,
      e,
      json_eq_refl v,
      get-update k left right dr,
      all-get (same_field right) left k x h there,
    )
  ]

  right_matches :
      (k : String) (v : Json) → get k (update left right) ≡ some v → matched right (k, v) ≡ true
  right_matches k v e = ground (arith, e, json_eq_refl v, get-update k left right dr)

  same_answer :
      (q : Payload)
      → Asks left right q
      → context_matches left q ≡ true
      → context_matches right q ≡ true
      → (k : String) (v : Json) → get k left ≡ some v
      → same_field right (k, v) ≡ true
  unfolding context_matches
  same_answer q asks l r k v in_left = elim (Option-cases (get k right)) [
    | inl absent ↦ ground (arith, absent)
    | inr (w, in_right) ↦
        let (x, in_q) = asks k v w in_left in_right in
        ground (
          arith,
          in_left,
          in_right,
          all-get (matched left) q k x l in_q,
          all-get (matched right) q k x r in_q,
          json_eq_sym w x,
          json_eq_trans v x w,
        )
  ]

  -- Two contexts overlap exactly if there is a context that names each field that both have and
  -- that each of them matches.
  pub contexts_overlap_iff : (contexts_overlap left right ≡ true) ↔ (
      (q : Payload) × IsDict q
      × Asks left right q
      × (context_matches left q ≡ true)
      × (context_matches right q ≡ true))
  unfolding contexts_overlap context_matches
  contexts_overlap_iff = (
    λ h. (
      update left right,
      update-IsDict left right dl,
      λ k v w in_left in_right. (w, ground (arith, in_right, get-update k left right dr)),
      get-all (matched left) (update left right) (update-IsDict left right dl) (left_matches h),
      get-all (matched right) (update left right) (update-IsDict left right dl) right_matches,
    ),
    λ m. get-all (same_field right) left dl λ k v e. same_answer m.0 m.2 m.3 m.4 k v e,
  )
