-- ===== src/OpLog/Batch.antt =====
-- `add_many` of oplog.py against one `add` after the other.
use statefuse.Base.{
  String, ◌≡◌, refl, Bool, true, false, List, [], ◌∷◌, arith, eq_iff, subst, ◌∙◌, Option-cases,
  Bool-cases, inl, inr,
}
use statefuse.Base.Dict.{
  get, put, update, get-put, put-IsDict, get-update, update-IsDict, IsDict, or_else,
}
use statefuse.Base.Order.{string_key}
use statefuse.Result.{Error, Result, ok, raise, ◌>>=◌, >>=-eq-ok, ok-injective}
use statefuse.Ops.{Op}
use statefuse.Ops.Equality.{op_eq}
use statefuse.OpLog.{OpLog, add, add_pending, add_many}

-- `add` of one operation after the other, with the results.
unfoldable pub add_each : OpLog → List Op → Result (OpLog × List Bool)
unfolding add
add_each log [] = ok (log, [])
add_each log (op ∷ ops) = do
  (next, new) ← add log op
  (last, results) ← add_each next ops
  ok (last, new ∷ results)

abbrev pub SameLookups : OpLog → OpLog → Type 0
SameLookups a b = (id : String) → get id a ≡ get id b

-- Two runs that raise the same error, or return the same results and logs that agree.
pub data SameRun : Result (OpLog × List Bool) → Result (OpLog × List Bool) → Type 0 where
  raised : {e : Error} → SameRun (raise e) (raise e)
  returned :
      {a b : OpLog} {results : List Bool}
      → SameLookups a b
      → SameRun (ok (a, results)) (ok (b, results))

-- `seq` is what one `add` after the other makes of the log where `add_many` has `pending`.
record Simulates (log pending seq : OpLog) : Type 0 where
  is_dict : IsDict pending
  sees : (id : String) → get id seq ≡ or_else (get id pending) (get id log)

put-Simulates :
    (log pending seq : OpLog) (op : Op)
    → Simulates log pending seq
    → Simulates log (put op.op_id op pending) (put op.op_id op seq)
put-Simulates log pending seq op s = record {
  is_dict = put-IsDict op.op_id op pending s.is_dict;
  sees = λ id. ground (
    arith,
    get-put op.op_id id op pending,
    get-put op.op_id id op seq,
    s.sees id,
    eq_iff op.op_id id,
  );
}

-- The rest of a run after one result.
also : Bool → Result (OpLog × List Bool) → Result (OpLog × List Bool)
also new run = run >>= λ r. ok (r.0, new ∷ r.1)

SameRun-also :
    (new : Bool) (a b : Result (OpLog × List Bool))
    → SameRun a b
    → SameRun (also new a) (also new b)
unfolding also
SameRun-also new _ _ raised = raised
SameRun-also new _ _ (returned same) = returned same

module _ (log : OpLog) where
  committed : OpLog × List Bool → Result (OpLog × List Bool)
  committed r = ok (update log r.0, r.1)

  also-committed :
      (new : Bool) (run : Result (OpLog × List Bool))
      → also new (run >>= committed) ≡ (also new run >>= committed)
  unfolding also committed
  also-committed new (ok r) = refl
  also-committed new (raise e) = refl

  -- One more result in front of two runs that agree.
  step :
      (new : Bool) (run other : Result (OpLog × List Bool))
      → SameRun (run >>= committed) other
      → SameRun (also new run >>= committed) (also new other)
  step new run other same =
      subst (λ r. SameRun r (also new other)) (also-committed new run)
        (SameRun-also new (run >>= committed) other same)

  simulation :
      (pending seq : OpLog) (ops : List Op)
      → Simulates log pending seq
      → SameRun (add_pending log pending ops >>= committed) (add_each seq ops)
  unfolding add add_pending add_each committed also
  simulation pending seq [] s =
      returned (λ id. ground (arith, get-update id log pending s.is_dict, s.sees id))
  simulation pending seq (op ∷ ops) s =
      elim (Option-cases (or_else (get op.op_id pending) (get op.op_id log))) [
        | inl fresh ↦
            rw (add_pending, add_each, add, fresh, s.sees op.op_id ∙ fresh)
              (step true (add_pending log (put op.op_id op pending) ops)
                (add_each (put op.op_id op seq) ops)
                (simulation (put op.op_id op pending) (put op.op_id op seq) ops
                  (put-Simulates log pending seq op s)))
        | inr (x, there) ↦
            rw (add_pending, add_each, add, there, s.sees op.op_id ∙ there)
              (elim (Bool-cases (op_eq x op)) [
                | inl same ↦ rw same (
                    step false (add_pending log pending ops) (add_each seq ops)
                      (simulation pending seq ops s))
                | inr other ↦ rw other raised
              ])
      ]

  -- `add_many` is one `add` after the other: both raise the same error, or both return the same
  -- results and logs with the same lookups.
  pub add_many-add_each : (ops : List Op) → SameRun (add_many log ops) (add_each log ops)
  unfolding add_many committed get
  add_many-add_each ops = simulation [] log ops (record { is_dict = tt; sees = λ id. refl })

abbrev Returned : Result (OpLog × List Bool) → OpLog × List Bool → Type 0
Returned b r = (seq : OpLog) × (b ≡ ok (seq, r.1)) × SameLookups r.0 seq

returns :
    (a b : Result (OpLog × List Bool)) {r : OpLog × List Bool}
    → SameRun a b
    → a ≡ ok r
    → Returned b r
returns _ _ raised e = cc
returns _ _ (returned {b = seq} {results = results} same) e =
    subst (Returned (ok (seq, results))) (ok-injective e) (seq, refl, same)

-- A log that `add_many` returned is a log, and one `add` after the other returns the same.
pub add_many-returned :
    (log : OpLog) (ops : List Op) {r : OpLog × List Bool}
    → IsDict log
    → add_many log ops ≡ ok r
    → IsDict r.0 × ((seq : OpLog) × (add_each log ops ≡ ok (seq, r.1)) × SameLookups r.0 seq)
unfolding add_many
add_many-returned log ops valid e =
    let ((pending, results), run, made) = >>=-eq-ok (add_pending log [] ops) _ e in
    (
      subst (λ r. IsDict r.0) (ok-injective made) (update-IsDict log pending valid),
      returns (add_many log ops) (add_each log ops) (add_many-add_each log ops) e,
    )
