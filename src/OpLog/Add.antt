-- ===== src/OpLog/Add.antt =====
-- Adding operations to a log: what it holds afterwards, and when a collision is raised.
use statefuse.Base.{
  String, ◌≡◌, refl, sym, ◌∙◌, ap, Bool, true, false, Option, none, some, List, [], ◌∷◌, arith,
  subst, if◌then◌else◌, All, All-imp, eq_iff, Option-cases, inl, inr,
}
use statefuse.Base.Dict.{get, put, get-put, put-IsDict, or_else}
use statefuse.Base.Order.{string_key, ◌==◌}
use statefuse.Base.Sorted.{contains, IsDistinct}
use statefuse.Result.{Result, ok, raise, collision, >>=-eq-ok, ok-injective}
use statefuse.Ops.{Op}
use statefuse.Ops.Equality.{op_eq}
use statefuse.OpLog.{OpLog, IsLog, add, add_all}
use statefuse.OpLog.Lookup.{find, ids}

-- What is stored under an operation's identifier, if anything is, equals the operation.
abbrev pub agrees : Option Op → Op → Bool
agrees none op = true
agrees (some existing) op = op_eq existing op

put-IsLog : (op : Op) (log : OpLog) → IsLog log → IsLog (put op.op_id op log)
put-IsLog op log valid = record {
  is_dict = put-IsDict op.op_id op log valid.is_dict;
  keyed = λ id x. rw get-put (λ there. stored id x there);
}
  where
    stored :
        (id : String) (x : Op)
        → (if op.op_id == id then some op else get id log) ≡ some x
        → x.op_id ≡ id
    stored id x there = ground (arith, eq_iff op.op_id id, valid.keyed id x)

module _ (op : Op) (log : OpLog) where
  -- On a successful `add` the log holds what it held, and the operation if it is new; the result
  -- says whether it was. A refusal names the identifier, and only a different payload is refused.
  pub add_new : get op.op_id log ≡ none → add log op ≡ ok (put op.op_id op log, true)
  unfolding add
  add_new h = rw (h, add)

  pub add_known :
      (existing : Op)
      → get op.op_id log ≡ some existing
      → add log op
        ≡ (if op_eq existing op then ok (log, false) else raise (collision "op_id" op.op_id))
  unfolding add
  add_known existing h = ground (arith, h)

pub add-IsLog :
    (log : OpLog) (op : Op) {m : OpLog × Bool} → IsLog log → add log op ≡ ok m → IsLog m.0
add-IsLog log op {m} valid e = elim (Option-cases (get op.op_id log)) [
  | inl fresh ↦
      subst IsLog (ap (λ (r : Result (OpLog × Bool)). kept r) (sym (add_new op log fresh) ∙ e))
        (put-IsLog op log valid)
  | inr (x, there) ↦ subst IsLog (same_log x there) valid
]
  where
    kept : Result (OpLog × Bool) → OpLog
    kept (ok r) = r.0
    kept (raise e) = log

    same_log : (x : Op) → get op.op_id log ≡ some x → log ≡ m.0
    same_log x there = ground (arith, add_known op log x there)

module _ (id : String) where
  get-add :
      (log : OpLog) (op : Op) {m : OpLog × Bool}
      → add log op ≡ ok m
      → get id m.0 ≡ or_else (get id log) (if op.op_id == id then some op else none)
  unfolding add
  get-add log op e = elim (Option-cases (get op.op_id log)) [
    | inl fresh ↦ ground (arith, fresh, get-put op.op_id id op log, eq_iff op.op_id id)
    | inr (x, there) ↦ ground (arith, there, eq_iff op.op_id id)
  ]

  -- If the operations of a list are added, the log holds under each identifier what it held before,
  -- or else the first operation of the list with that identifier.
  pub get-add_all :
      (log : OpLog) (ops : List Op) {m : OpLog}
      → add_all log ops ≡ ok m
      → get id m ≡ or_else (get id log) (find id ops)
  unfolding add_all find
  get-add_all log [] e = ground arith
  get-add_all log (op ∷ ops) e =
      let ((next, new), added, rest) = >>=-eq-ok (add log op) (λ r. add_all r.0 ops) e in
      ground (arith, get-add log op added, get-add_all next ops rest)

pub add_all-IsLog :
    (log : OpLog) (ops : List Op) {m : OpLog} → IsLog log → add_all log ops ≡ ok m → IsLog m
unfolding add_all
add_all-IsLog log [] valid e = subst IsLog (ok-injective e) valid
add_all-IsLog log (op ∷ ops) valid e =
    let ((next, new), added, rest) = >>=-eq-ok (add log op) (λ r. add_all r.0 ops) e in
    add_all-IsLog next ops (add-IsLog log op valid added) rest

-- Each operation agrees with what the log holds under its identifier.
abbrev pub AllAgree : OpLog → List Op → Type 0
AllAgree log = All (λ op. agrees (get op.op_id log) op ≡ true)

agrees-add :
    (log : OpLog) (op x : Op) {m : OpLog × Bool}
    → add log op ≡ ok m
    → agrees (get x.op_id m.0) x ≡ true
    → agrees (get x.op_id log) x ≡ true
agrees-add log op x e h = elim (Option-cases (get x.op_id log)) [
  | inl fresh ↦ rw fresh refl
  | inr (y, there) ↦ ground (arith, there, get-add x.op_id log op e)
]

-- The loop raises unless each operation agrees with what the log held before.
pub add_all-AllAgree :
    (log : OpLog) (ops : List Op) {m : OpLog} → add_all log ops ≡ ok m → AllAgree log ops
unfolding add_all
add_all-AllAgree log [] e = tt
add_all-AllAgree log (op ∷ ops) e =
    let ((next, new), added, rest) = >>=-eq-ok (add log op) (λ r. add_all r.0 ops) e in
    (
      added_agrees log op added,
      All-imp (λ x. agrees-add log op x added) ops (add_all-AllAgree next ops rest),
    )
  where
    added_agrees :
        (before : OpLog) (x : Op) {m : OpLog × Bool}
        → add before x ≡ ok m
        → agrees (get x.op_id before) x ≡ true
    added_agrees before x e = elim (Option-cases (get x.op_id before)) [
      | inl fresh ↦ rw fresh refl
      | inr (y, there) ↦ ground (arith, there, add_known x before y there)
    ]

AllAgree-put :
    (log : OpLog) (op : Op) (ops : List Op)
    → contains op.op_id (ids ops) ≡ false
    → AllAgree log ops
    → AllAgree (put op.op_id op log) ops
unfolding contains
AllAgree-put log op [] h a = tt
AllAgree-put log op (x ∷ ops) h a = ground (
  arith,
  get-put op.op_id x.op_id op log,
  eq_iff op.op_id x.op_id,
  eq_iff x.op_id op.op_id,
  AllAgree-put log op ops,
)

-- A list of operations with distinct identifiers, each equal to what the log holds under its
-- identifier if anything, is added without an error.
pub add_all_total :
    (log : OpLog) (ops : List Op)
    → IsDistinct (ids ops)
    → AllAgree log ops
    → (m : OpLog) × (add_all log ops ≡ ok m)
unfolding add_all
add_all_total log [] d a = (log, refl)
add_all_total log (op ∷ ops) d a = elim (Option-cases (get op.op_id log)) [
  | inl fresh ↦
      let (m, e) = add_all_total (put op.op_id op log) ops d.1 (AllAgree-put log op ops d.0 a.1) in
      (m, rw (add_new op log fresh) e)
  | inr (y, there) ↦
      let (m, e) = add_all_total log ops d.1 a.1 in
      (m, rw (add_known op log y there) (ground (arith, there, e)))
]
