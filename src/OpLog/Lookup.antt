-- ===== src/OpLog/Lookup.antt =====
-- What a list of operations holds under an identifier, and what `iter_ops` lists.
use statefuse.Base.{
  String, ◌≡◌, refl, false, Option, none, some, List, [], ◌∷◌, arith, if◌then◌else◌, All, eq_iff,
  Option-cases, inl, inr, subst, Bool-cases,
}
use statefuse.Base.Dict.{get, keys}
use statefuse.Base.Order.{string_key, ◌==◌}
use statefuse.Base.Sorted.{
  in_order, select, sorted, contains, contains-sorted, contains-keys, IsDistinct, keys-IsDistinct,
  sorted-IsAscending, IsAscending-IsDistinct,
}
use statefuse.Ops.{Op}
use statefuse.OpLog.{OpLog, IsLog}

-- The first operation with the identifier.
unfoldable pub find : String → List Op → Option Op
find id [] = none
find id (op ∷ ops) = if op.op_id == id then some op else find id ops

abbrev pub ids : List Op → List String
ids [] = []
ids (op ∷ ops) = op.op_id ∷ ids ops

module _ (log : OpLog) (valid : IsLog log) where
  find-select :
      (id : String) (ks : List String)
      → find id (select log ks) ≡ (if contains id ks then get id log else none)
  unfolding find select contains
  find-select id [] = refl
  find-select id (k ∷ ks) = elim (Option-cases (get k log)) [
    | inl missing ↦ ground (arith, missing, eq_iff k id, find-select id ks)
    | inr (op, there) ↦
        ground (arith, there, valid.keyed k op there, eq_iff k id, find-select id ks)
  ]

  ids-select :
      (id : String) (ks : List String)
      → contains id ks ≡ false
      → contains id (ids (select log ks)) ≡ false
  unfolding select contains
  ids-select id [] h = refl
  ids-select id (k ∷ ks) h = elim (Option-cases (get k log)) [
    | inl missing ↦ ground (arith, missing, ids-select id ks)
    | inr (op, there) ↦ ground (arith, there, valid.keyed k op there, ids-select id ks)
  ]

  select-IsDistinct : (ks : List String) → IsDistinct ks → IsDistinct (ids (select log ks))
  unfolding select
  select-IsDistinct [] h = tt
  select-IsDistinct (k ∷ ks) h = elim (Option-cases (get k log)) [
    | inl missing ↦ ground (arith, missing, select-IsDistinct ks h.1)
    | inr (op, there) ↦
        ground (arith, there, valid.keyed k op there, ids-select k ks h.0, select-IsDistinct ks h.1)
  ]

  -- `iter_ops` lists exactly what the log holds, each identifier once.
  pub find-iter_ops : (id : String) → find id (in_order log) ≡ get id log
  unfolding in_order
  find-iter_ops id = ground (
    arith,
    find-select id (sorted (keys log)),
    contains-sorted id (keys log),
    contains-keys id log,
  )

  pub iter_ops-IsDistinct : IsDistinct (ids (in_order log))
  unfolding in_order
  iter_ops-IsDistinct = select-IsDistinct (sorted (keys log)) (
      IsAscending-IsDistinct (sorted (keys log))
        (sorted-IsAscending (keys log) (keys-IsDistinct log valid.is_dict)))

  members : (ks : List String) → All (λ op. get op.op_id log ≡ some op) (select log ks)
  unfolding select
  members [] = tt
  members (k ∷ ks) = elim (Option-cases (get k log)) [
    | inl missing ↦ ground (arith, missing, members ks)
    | inr (op, there) ↦ ground (arith, there, valid.keyed k op there, members ks)
  ]

  pub iter_ops-members : All (λ op. get op.op_id log ≡ some op) (in_order log)
  unfolding in_order
  iter_ops-members = members (sorted (keys log))

pub All-find {κ} :
    (P : Op → Type κ) (id : String) (ops : List Op) {op : Op}
    → All P ops
    → find id ops ≡ some op
    → P op
unfolding find
All-find P id [] h e = cc
All-find P id (x ∷ ops) h e = elim (Bool-cases (x.op_id == id)) [
  | inl here ↦ subst P (ground arith) h.0
  | inr there ↦ All-find P id ops h.1 (ground arith)
]
