-- ===== src/Materialize/History/Groups.antt =====
-- A group holds the items of its key, in the order in which they came.
use mathlib.Core.List.{append-nil, append_assoc}
use statefuse.Base.{
  String, ◌≡◌, refl, sym, ◌∙◌, ap, false, Option, List, [], ◌∷◌, ◌++◌, if◌then◌else◌, arith, inl,
  inr, Bool-cases, eq_iff,
}
use statefuse.Base.Dict.{Dict, get, key_refl}
use statefuse.Base.Order.{Key, string_key, pair_key, option_key, ◌==◌}
use statefuse.Base.Groups.{group, append_to, group-append_to}
use statefuse.Base.Stable.{pick}
use statefuse.Materialize.History.{Lane, group_by}

module _ {A K : Type 0} ⦃o : Key K⦄ (key : A → K) where
  -- The items with a key.
  abbrev pub having : K → List A → List A
  having k = pick (λ x. key x == k)

  pub group-group_by :
      (k : K) (d : Dict K (List A)) (l : List A)
      → group k (group_by key d l) ≡ group k d ++ having k l
  unfolding group_by pick
  group-group_by k d [] = sym (append-nil (group k d))
  group-group_by k d (x ∷ l) =
      group-group_by k (append_to (key x) x d) l
      ∙ ap (λ g. g ++ having k l) (group-append_to (key x) k x d)
      ∙ elim (Bool-cases (key x == k)) [
        | inl own ↦ rw own (append_assoc (group k d) (x ∷ []) (having k l))
        | inr other ↦ rw other refl
      ]

module _ {A : Type 0} (scope_of : A → Option String) where
  abbrev pub lane_of : String → A → Lane
  lane_of ref x = (ref, scope_of x)

  having-lane :
      (ref : String) (scope : Option String) (l : List A)
      → having {K = Lane} (lane_of ref) (ref, scope) l ≡ having scope_of scope l
  unfolding pick
  having-lane ref scope [] = refl
  having-lane ref scope (x ∷ l) =
      rw (key_refl ref)
        (ap (λ rest. if scope_of x == scope then x ∷ rest else rest) (having-lane ref scope l))

  -- The items of one conflict, filed by lane.
  pub group-scope :
      (ref : String) (scope : Option String) (l : List A)
      → group {K = Lane} (ref, scope) (group_by (lane_of ref) [] l) ≡ having scope_of scope l
  unfolding group get
  group-scope ref scope l = group-group_by (lane_of ref) (ref, scope) [] l ∙ having-lane ref scope l

  having_elsewhere :
      (ref : String) (lane : Lane) (l : List A)
      → (lane.0 == ref) ≡ false
      → having (lane_of ref) lane l ≡ []
  unfolding pick
  having_elsewhere ref lane [] other = refl
  having_elsewhere ref lane (x ∷ l) other =
      ground (arith, other, eq_iff ref lane.0, eq_iff lane.0 ref, having_elsewhere ref lane l other)

  pub group_elsewhere :
      (ref : String) (lane : Lane) (l : List A)
      → (lane.0 == ref) ≡ false
      → group lane (group_by (lane_of ref) [] l) ≡ []
  unfolding group get
  group_elsewhere ref lane l other =
      group-group_by (lane_of ref) lane [] l ∙ having_elsewhere ref lane l other
