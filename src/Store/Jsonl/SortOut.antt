-- ===== src/Store/Jsonl/SortOut.antt =====
-- The loop of `append_many` against `add` of one operation after the other.
use statefuse.Base.{
  String, ◌≡◌, refl, sym, ◌∙◌, subst, Bool, true, false, none, some, List, [], ◌∷◌, arith, All,
  if◌then◌else◌, Option-cases, inl, inr,
}
use statefuse.Base.Dict.{get, put, get-put}
use statefuse.Base.Order.{string_key}
use statefuse.Result.{Error, Result, ok, raise, collision, ◌>>=◌, >>=-eq-ok, ok-injective}
use statefuse.Host.{Host}
use statefuse.Ops.{Op}
use statefuse.Ops.Equality.{op_eq}
use statefuse.Ops.RoundTrip.{IsBody}
use statefuse.OpLog.{OpLog, add_all}
use statefuse.OpLog.Add.{add_new, add_known}
use statefuse.Store.Jsonl.{sort_out}

-- The operations came out of their constructors.
abbrev pub AreBodies : Host → List Op → Type 0
AreBodies h = All (λ op. IsBody h op.body)

module _ (existing : OpLog) (op : Op) (ops : List Op) where
  sort_new :
      get op.op_id existing ≡ none
      → sort_out existing (op ∷ ops)
        ≡ (sort_out (put op.op_id op existing) ops >>= λ q. ok (op ∷ q.0, true ∷ q.1))
  unfolding sort_out
  sort_new fresh = rw (fresh, sort_out)

  sort_known :
      (x : Op)
      → get op.op_id existing ≡ some x
      → sort_out existing (op ∷ ops) ≡ (
          if op_eq x op
          then (sort_out existing ops >>= λ q. ok (q.0, false ∷ q.1))
          else raise (collision "op_id" op.op_id))
  unfolding sort_out
  sort_known x there = rw (there, sort_out)

-- A branch that did not raise.
agreed :
    {A : Type 0} (same : Bool) (rest : Result A) (e : Error) {a : A}
    → (if same then rest else raise e) ≡ ok a
    → (same ≡ true) × (rest ≡ ok a)
agreed true rest e q = (refl, q)
agreed false rest e q = absurd cc

-- What is sorted out as new is what `add` adds.
pub sort_out-add_all :
    (existing : OpLog) (ops : List Op) {r : List Op × List Bool}
    → sort_out existing ops ≡ ok r
    → (last : OpLog) × (add_all existing ops ≡ ok last) × (add_all existing r.0 ≡ ok last)
unfolding sort_out add_all
sort_out-add_all existing [] e =
    (existing, refl, subst (λ q. add_all existing q.0 ≡ ok existing) (ok-injective e) refl)
sort_out-add_all existing (op ∷ ops) {r} e = elim (Option-cases (get op.op_id existing)) [
  | inl fresh ↦
      let (q, run, made) =
        >>=-eq-ok (sort_out (put op.op_id op existing) ops) _
          (sym (sort_new existing op ops fresh) ∙ e) in
      let (last, all, added) = sort_out-add_all (put op.op_id op existing) ops run in
      (
        last,
        rw (add_new op existing fresh) all,
        subst (λ z. add_all existing z.0 ≡ ok last) (ok-injective made)
            (rw (add_new op existing fresh) added),
      )
  | inr (x, there) ↦
      let (same, rest) = agreed (op_eq x op) _ _ (sym (sort_known existing op ops x there) ∙ e) in
      let (q, run, made) = >>=-eq-ok (sort_out existing ops) _ rest in
      let (last, all, added) = sort_out-add_all existing ops run in
      (
        last,
        rw (add_known op existing x there) (rw same all),
        subst (λ z. add_all existing z.0 ≡ ok last) (ok-injective made) added,
      )
]

pub sort_out-AreBodies :
    (h : Host) (existing : OpLog) (ops : List Op) {r : List Op × List Bool}
    → AreBodies h ops
    → sort_out existing ops ≡ ok r
    → AreBodies h r.0
unfolding sort_out
sort_out-AreBodies h existing [] v e = subst (λ q. AreBodies h q.0) (ok-injective e) tt
sort_out-AreBodies h existing (op ∷ ops) v e = elim (Option-cases (get op.op_id existing)) [
  | inl fresh ↦
      let (q, run, made) =
        >>=-eq-ok (sort_out (put op.op_id op existing) ops) _
          (sym (sort_new existing op ops fresh) ∙ e) in
      subst (λ z. AreBodies h z.0) (ok-injective made)
        (v.0, sort_out-AreBodies h (put op.op_id op existing) ops v.1 run)
  | inr (x, there) ↦
      let (same, rest) = agreed (op_eq x op) _ _ (sym (sort_known existing op ops x there) ∙ e) in
      let (q, run, made) = >>=-eq-ok (sort_out existing ops) _ rest in
      subst (λ z. AreBodies h z.0) (ok-injective made) (sort_out-AreBodies h existing ops v.1 run)
]

module _ (log : OpLog) (op : Op) (ops : List Op) where
  add_all_new : get op.op_id log ≡ none → add_all log (op ∷ ops) ≡ add_all (put op.op_id op log) ops
  unfolding add_all
  add_all_new fresh = rw (add_new op log fresh) refl

  add_all_known :
      (x : Op)
      → get op.op_id log ≡ some x
      → add_all log (op ∷ ops)
        ≡ (if op_eq x op then add_all log ops else raise (collision "op_id" op.op_id))
  unfolding add_all
  add_all_known x there = rw (add_known op log x there) (decided (op_eq x op))
    where
      decided :
          (same : Bool)
          → ((if same then ok (log, false) else raise (collision "op_id" op.op_id))
              >>= (λ (r : OpLog × Bool). add_all r.0 ops))
            ≡ (if same then add_all log ops else raise (collision "op_id" op.op_id))
      decided true = refl
      decided false = refl

-- `add_all` reads a log by its lookups.
pub add_all-SameLookups :
    (a b : OpLog) (ops : List Op) {m : OpLog}
    → ((id : String) → get id a ≡ get id b)
    → add_all a ops ≡ ok m
    → (n : OpLog) × (add_all b ops ≡ ok n)
unfolding add_all
add_all-SameLookups a b [] same e = (b, refl)
add_all-SameLookups a b (op ∷ ops) same e = elim (Option-cases (get op.op_id a)) [
  | inl fresh ↦
      let (n, f) =
        add_all-SameLookups (put op.op_id op a) (put op.op_id op b) ops
          (λ id. ground (arith, get-put op.op_id id op a, get-put op.op_id id op b, same id))
          (sym (add_all_new a op ops fresh) ∙ e) in
      (n, rw (add_new op b (sym (same op.op_id) ∙ fresh)) f)
  | inr (x, there) ↦
      let (agree, rest) =
        agreed (op_eq x op) (add_all a ops) (collision "op_id" op.op_id)
          (sym (add_all_known a op ops x there) ∙ e) in
      let (n, f) = add_all-SameLookups a b ops same rest in
      (n, rw (add_known op b x (sym (same op.op_id) ∙ there)) (rw agree f))
]
