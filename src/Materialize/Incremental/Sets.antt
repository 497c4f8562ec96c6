-- ===== src/Materialize/Incremental/Sets.antt =====
-- The small steps of the incremental loop: what they do to the sets and the dictionaries of sets.
use statefuse.Base.{
  String, ◌≡◌, refl, ◌∙◌, ap, ap₂, Bool, false, ◌&&◌, ◌||◌, ◌↔◌, Option, none, some, List, [], ◌∷◌,
  arith, inl, inr, Bool-cases, In, any, is_some, eq_iff,
}
use statefuse.Base.Dict.{Dict, get, put, keys, get-put, beq_comm}
use statefuse.Base.Order.{string_key, ◌==◌}
use statefuse.Base.Sorted.{contains, contains-keys}
use statefuse.Base.Groups.{
  group, add_member, add_to, contains-append, contains-add_member, contains-add_to,
}
use statefuse.Model.Claim.{Claim}
use statefuse.Ops.{Op}
use statefuse.Materialize.Facts.{Facts}
use statefuse.Materialize.Facts.Claims.{names}
use statefuse.Materialize.Facts.Withdrawn.{contains-members_of}
use statefuse.Materialize.Active.{members_of, inactive_claim_ids}
use statefuse.Materialize.Incremental.{
  append_sorted_retraction, append_sorted_named, with_retraction, add_members, given, targets_under,
  without,
}

pub has-append_sorted_named :
    (n : Option String) (op : Op) (id : String) (d : Dict String (List Op))
    → is_some (get id (append_sorted_named n op d)) ≡ names n id || is_some (get id d)
unfolding append_sorted_named append_sorted_retraction
has-append_sorted_named none op id d = refl
has-append_sorted_named (some name) op id d = elim (Bool-cases (name == "")) [
  | inl empty ↦ rw empty refl
  | inr named ↦ rw named (ground (arith, get-put name id (with_retraction op (group name d)) d))
]

pub contains-given : (n : Option String) (id : String) → contains id (given n) ≡ names n id
unfolding given contains
contains-given none id = refl
contains-given (some name) id = ground arith

pub contains-add_members :
    (w : String) (ids s : List String)
    → contains w (add_members ids s) ≡ contains w ids || contains w s
unfolding add_members contains
contains-add_members w [] s = refl
contains-add_members w (id ∷ ids) s =
    ground (arith, contains-add_members w ids (add_member id s), contains-add_member id w s)

pub any-keys_put :
    {V : Type 0} (p : String → Bool) (k : String) (v : V) (d : Dict String V)
    → any p (keys (put k v d)) ≡ p k || any p (keys d)
unfolding put
any-keys_put p k v [] = refl
any-keys_put p k v ((j, w) ∷ d) = elim (Bool-cases (j == k)) [
  | inl own ↦ ground (arith, own, ap p ((eq_iff j k).0 own))
  | inr other ↦ ground (arith, other, any-keys_put p k v d)
]

pub contains-inactive :
    (id : String) (f : Facts)
    → contains id (inactive_claim_ids f)
      ≡ is_some (get id f.retractions_by_target)
        || any
            (λ ref. contains id (group ref f.claim_ids_by_ref))
            (keys f.retractions_by_target_ref)
unfolding inactive_claim_ids
contains-inactive id f =
    contains-append id (keys f.retractions_by_target)
      (members_of f.claim_ids_by_ref (keys f.retractions_by_target_ref))
    ∙ ap₂ (λ a b. a || b) (contains-keys id f.retractions_by_target)
        (contains-members_of id f.claim_ids_by_ref (keys f.retractions_by_target_ref))

-- A claim filed under one more reference, against the references of a list.
pub any-add_to :
    (ref claim id : String) (d : Dict String (List String)) (refs : List String)
    → any (λ j. contains id (group j (add_to ref claim d))) refs
      ≡ (contains ref refs && claim == id) || any (λ j. contains id (group j d)) refs
unfolding contains
any-add_to ref claim id d [] = refl
any-add_to ref claim id d (j ∷ refs) =
    ap₂ (λ a b. a || b)
      (contains-add_to ref j claim id d
        ∙ ap (λ b. (b && claim == id) || contains id (group j d)) (beq_comm ref j))
      (any-add_to ref claim id d refs)
    ∙ go (j == ref) (claim == id) (contains id (group j d)) (contains ref refs)
        (any (λ x. contains id (group x d)) refs)
  where
    go : (a b c x y : Bool) → (((a && b) || c) || ((x && b) || y)) ≡ (((a || x) && b) || (c || y))
    go a b c x y = ground arith

-- The references that the retraction names, added to those of the others.
pub any-append_sorted_named :
    (p : String → Bool) (n : Option String) (op : Op) (d : Dict String (List Op))
    → any p (keys (append_sorted_named n op d)) ≡ any p (given n) || any p (keys d)
unfolding append_sorted_named append_sorted_retraction given
any-append_sorted_named p none op d = refl
any-append_sorted_named p (some name) op d = elim (Bool-cases (name == "")) [
  | inl empty ↦ rw empty refl
  | inr named ↦ rw named (any-keys_put p name (with_retraction op (group name d)) d ∙ ground arith)
]

pub contains-targets_under :
    (id : String) (refs : List String) (d : Dict String (List String))
    → contains id (targets_under refs d) ≡ any (λ ref. contains id (group ref d)) refs
unfolding targets_under contains
contains-targets_under id [] d = refl
contains-targets_under id (ref ∷ refs) d =
    contains-append id (group ref d) (targets_under refs d)
    ∙ ap (λ b. contains id (group ref d) || b) (contains-targets_under id refs d)

pub In-without :
    (id : String) (c : Claim) (l : List Claim)
    → In c (without id l) ↔ (In c l × ((c.claim_id == id) ≡ false))
unfolding without
In-without id c [] = (λ h. absurd h, λ h. absurd h.0)
In-without id c (x ∷ l) = elim (Bool-cases (x.claim_id == id)) [
  | inl out ↦
      rw out (ground (arith, In-without id c l, λ (e : c ≡ x). ap (λ y. y.claim_id == id) e ∙ out))
  | inr stays ↦
      rw stays
        (ground (arith, In-without id c l, λ (e : c ≡ x). ap (λ y. y.claim_id == id) e ∙ stays))
]
