-- ===== src/Merge/Join.antt =====
-- `merge` is a join of logs: it is defined exactly on compatible logs, and then commutative,
-- associative and idempotent up to the order of insertion and Python's equality of operations.
use statefuse.Base.{
  String, ◌≡◌, refl, sym, ◌∙◌, ap, subst, Bool, true, false, Option, none, some, List, [], ◌∷◌,
  arith, All-imp, Option-cases, inl, inr,
}
use statefuse.Base.Dict.{get, or_else}
use statefuse.Base.Order.{string_key}
use statefuse.Base.Sorted.{in_order-eq}
use statefuse.Result.{ok, >>=-eq-ok, ok-injective}
use statefuse.Ops.{Op}
use statefuse.Ops.Equality.{op_eq, op_eq_refl, op_eq_sym, op_eq_trans}
use statefuse.OpLog.{OpLog, IsLog, add_all, from_ops, iter_ops}
use statefuse.OpLog.Lookup.{find-iter_ops, iter_ops-IsDistinct, iter_ops-members, All-find}
use statefuse.OpLog.Add.{
  agrees, AllAgree, get-add_all, add_all-IsLog, add_all-AllAgree, add_all_total,
}
use statefuse.Merge.{merge}

-- No identifier names two operations that differ.
abbrev pub Compatible : OpLog → OpLog → Type 0
Compatible a b = (x y : Op) → get x.op_id a ≡ some x → get x.op_id b ≡ some y → op_eq x y ≡ true

empty-IsLog : IsLog []
unfolding get
empty-IsLog = record { is_dict = tt; keyed = λ id op h. cc }

nothing_stored : (ops : List Op) → AllAgree [] ops
unfolding get
nothing_stored [] = tt
nothing_stored (op ∷ ops) = (refl, nothing_stored ops)

-- A copy of a log succeeds and holds the same operations.
pub copy_total :
    (log : OpLog)
    → IsLog log
    → (m : OpLog) × (from_ops (iter_ops log) ≡ ok m)
      × IsLog m
      × ((id : String) → get id m ≡ get id log)
unfolding from_ops get
copy_total log valid =
    let ops = iter_ops log in
    let (m, e) = add_all_total [] ops (iter_ops-IsDistinct log valid) (nothing_stored ops) in
    (
      m,
      e,
      add_all-IsLog [] ops empty-IsLog e,
      λ id. get-add_all id [] ops e ∙ find-iter_ops log valid id,
    )

module _ (a b : OpLog) (va : IsLog a) (vb : IsLog b) where
  -- If the merge of two logs returns, the result holds under each identifier what the first log
  -- holds, or else what the second holds.
  pub get-merge :
      (m : OpLog) → merge a b ≡ ok m → (id : String) → get id m ≡ or_else (get id a) (get id b)
  unfolding merge
  get-merge m e id =
      let (copied, done, valid, same) = copy_total a va in
      let (c, d, rest) = >>=-eq-ok (from_ops (iter_ops a)) (λ l. add_all l (iter_ops b)) e in
      ground (arith, done, d, get-add_all id c (iter_ops b) rest, find-iter_ops b vb id, same id)

  pub merge-IsLog : (m : OpLog) → merge a b ≡ ok m → IsLog m
  unfolding merge
  merge-IsLog m e =
      let (copied, done, valid, same) = copy_total a va in
      let (c, d, rest) = >>=-eq-ok (from_ops (iter_ops a)) (λ l. add_all l (iter_ops b)) e in
      add_all-IsLog c (iter_ops b) (subst IsLog (ok-injective (sym done ∙ d)) valid) rest

  agree_of_Compatible :
      (c : OpLog) → ((id : String) → get id c ≡ get id a) → Compatible a b → AllAgree c (iter_ops b)
  agree_of_Compatible c same compatible =
      All-imp {P = λ op. get op.op_id b ≡ some op} (λ op there. agreement op there) (iter_ops b)
        (iter_ops-members b vb)
    where
      agreement : (op : Op) → get op.op_id b ≡ some op → agrees (get op.op_id c) op ≡ true
      agreement op there = elim (Option-cases (get op.op_id a)) [
        | inl missing ↦ ground (arith, same op.op_id, missing)
        | inr (x, found) ↦
            ground (arith, same op.op_id, found, va.keyed op.op_id x found, compatible x op)
      ]

  -- The merge of two logs in which no identifier names two operations that differ returns.
  pub merge_total : Compatible a b → (m : OpLog) × (merge a b ≡ ok m)
  unfolding merge
  merge_total compatible =
      let (copied, done, valid, same) = copy_total a va in
      let (m, e) =
        add_all_total copied (iter_ops b) (iter_ops-IsDistinct b vb)
          (agree_of_Compatible copied same compatible) in
      (m, rw done e)

  -- If the merge of two logs returns, no identifier names two operations that differ.
  pub merge-Compatible : (m : OpLog) → merge a b ≡ ok m → Compatible a b
  unfolding merge
  merge-Compatible m e x y in_a in_b =
      let (copied, done, valid, same) = copy_total a va in
      let (c, d, rest) = >>=-eq-ok (from_ops (iter_ops a)) (λ l. add_all l (iter_ops b)) e in
      let agreement =
        All-find (λ op. agrees (get op.op_id c) op ≡ true) x.op_id (iter_ops b)
          (add_all-AllAgree c (iter_ops b) rest) (find-iter_ops b vb x.op_id ∙ in_b) in
      ground
        (arith, ok-injective (sym done ∙ d), same x.op_id, vb.keyed x.op_id y in_b, in_a, agreement)

-- Both logs hold the same identifiers, with operations that Python finds equal.
abbrev pub same_op : Option Op → Option Op → Bool
same_op none none = true
same_op (some x) (some y) = op_eq x y
same_op _ _ = false

abbrev pub SameOps : OpLog → OpLog → Type 0
SameOps m n = (id : String) → same_op (get id m) (get id n) ≡ true

-- Of two operations that are found equal it does not matter which is kept.
same_winner :
    (x y : Option Op)
    → ((p q : Op) → x ≡ some p → y ≡ some q → op_eq p q ≡ true)
    → same_op (or_else x y) (or_else y x) ≡ true
same_winner none none h = refl
same_winner none (some q) h = op_eq_refl q
same_winner (some p) none h = op_eq_refl p
same_winner (some p) (some q) h = h p q refl refl

module _ (a b : OpLog) (va : IsLog a) (vb : IsLog b) (compatible : Compatible a b) where
  pub Compatible-at :
      (id : String) (x y : Op) → get id a ≡ some x → get id b ≡ some y → op_eq x y ≡ true
  Compatible-at id x y in_a in_b = ground (arith, va.keyed id x in_a, compatible x y)

  pub Compatible-sym : Compatible b a
  Compatible-sym y x in_b in_a = op_eq_sym x y (Compatible-at y.op_id x y in_a in_b)

-- If the merge of two logs returns, so does the merge in the other order, and both results hold the
-- same identifiers, with operations that are equal by Python's `==`.
pub merge_comm :
    (a b m : OpLog)
    → IsLog a
    → IsLog b
    → merge a b ≡ ok m
    → (n : OpLog) × (merge b a ≡ ok n) × SameOps m n
merge_comm a b m va vb e =
    let compatible = merge-Compatible a b va vb m e in
    let (n, f) = merge_total b a vb va (Compatible-sym a b va vb compatible) in
    (
      n,
      f,
      λ id.
          rw (get-merge a b va vb m e id, get-merge b a vb va n f id)
            (same_winner (get id a) (get id b) (Compatible-at a b va vb compatible id)),
    )

-- The merge of a log with itself returns, and the result has the log's lookups.
pub merge_self :
    (a : OpLog) → IsLog a → (m : OpLog) × (merge a a ≡ ok m) × ((id : String) → get id m ≡ get id a)
merge_self a va =
    let (m, e) = merge_total a a va va λ x y p q. ground (arith, op_eq_refl x) in
    (m, e, λ id. get-merge a a va va m e id ∙ or_else_self (get id a))
  where
    or_else_self : (x : Option Op) → or_else x x ≡ x
    or_else_self none = refl
    or_else_self (some p) = refl

or_else_assoc : (x y z : Option Op) → or_else (or_else x y) z ≡ or_else x (or_else y z)
or_else_assoc none y z = refl
or_else_assoc (some p) y z = refl

module _ (a b c ab : OpLog) (va : IsLog a) (vb : IsLog b) (vc : IsLog c)
    (left : merge a b ≡ ok ab) where
  agree_later :
      (x y z : Option Op)
      → ((p q : Op) → x ≡ some p → y ≡ some q → op_eq p q ≡ true)
      → ((p q : Op) → or_else x y ≡ some p → z ≡ some q → op_eq p q ≡ true)
      → ((p q : Op) → y ≡ some p → z ≡ some q → op_eq p q ≡ true)
        × ((p q : Op) → x ≡ some p → or_else y z ≡ some q → op_eq p q ≡ true)
  agree_later none y z h k = (k, λ p q e f. cc)
  agree_later (some x) none z h k = (λ p q e f. cc, k)
  agree_later (some x) (some y) z h k = (
    λ p q e f. op_eq_trans p x q (op_eq_sym x p (h x p refl e)) (k x q refl f),
    λ p q e f. h p q e f,
  )

  later :
      (m : OpLog) (id : String)
      → merge ab c ≡ ok m
      → ((p q : Op) → get id b ≡ some p → get id c ≡ some q → op_eq p q ≡ true)
        × ((p q : Op)
            → get id a ≡ some p
            → or_else (get id b) (get id c) ≡ some q
            → op_eq p q ≡ true)
  later m id e =
      let vab = merge-IsLog a b va vb ab left in
      agree_later (get id a) (get id b) (get id c)
        (Compatible-at a b va vb (merge-Compatible a b va vb ab left) id)
        λ p q in_ab.
          Compatible-at ab c vab vc (merge-Compatible ab c vab vc m e) id p q
            (get-merge a b va vb ab left id ∙ in_ab)

  -- If the merge of two logs returns and so does its merge with a third, then the merges in the
  -- other grouping return too, and both results list exactly the same operations.
  pub merge_assoc :
      (m : OpLog)
      → merge ab c ≡ ok m
      → (bc : OpLog) × (merge b c ≡ ok bc)
        × (n : OpLog) × (merge a bc ≡ ok n)
        × (iter_ops m ≡ iter_ops n)
  merge_assoc m e =
      let vab = merge-IsLog a b va vb ab left in
      let (bc, f) = merge_total b c vb vc (λ y z p q. (later m y.op_id e).0 y z p q) in
      let vbc = merge-IsLog b c vb vc bc f in
      let (n, g) =
        merge_total a bc va vbc
          λ x w p q. (later m x.op_id e).1 x w p (sym (get-merge b c vb vc bc f x.op_id) ∙ q) in
      (
        bc,
        f,
        n,
        g,
        in_order-eq m n (merge-IsLog ab c vab vc m e).is_dict (merge-IsLog a bc va vbc n g).is_dict
            λ id.
              get-merge ab c vab vc m e id
              ∙ ap (λ t. or_else t (get id c)) (get-merge a b va vb ab left id)
              ∙ or_else_assoc (get id a) (get id b) (get id c)
              ∙ sym (ap (or_else (get id a)) (get-merge b c vb vc bc f id))
              ∙ sym (get-merge a bc va vbc n g id),
      )
