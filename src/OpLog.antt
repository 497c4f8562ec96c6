-- ===== src/OpLog.antt =====
-- oplog.py: the set-like log, a dictionary of operations under their identifiers.
pub mod Lookup
pub mod Add
pub mod Batch
use statefuse.Base.{
  ℕ, String, ◌≡◌, Bool, true, false, Option, none, some, List, [], ◌∷◌, if◌then◌else◌, All, length,
}
use statefuse.Base.Dict.{Dict, get, put, has, update, IsDict, keys, or_else}
use statefuse.Base.Order.{string_key}
use statefuse.Base.Sorted.{in_order, sorted}
use statefuse.Result.{Result, ok, raise, collision, ◌>>=◌}
use statefuse.Ops.{Op}
use statefuse.Ops.Equality.{op_eq}

abbrev pub OpLog : Type 0
OpLog = Dict String Op

abbrev pub collides : Op → Result (OpLog × Bool)
collides op = raise (collision "op_id" op.op_id)

-- `add`: the log and whether the operation is new
unfoldable pub add : OpLog → Op → Result (OpLog × Bool)
add log op = elim (get op.op_id log) [
  | none ↦ ok (put op.op_id op log, true)
  | some existing ↦ if op_eq existing op then ok (log, false) else collides op
]

-- The loop of `OpLog(ops)` and of `merge`.
unfoldable pub add_all : OpLog → List Op → Result OpLog
add_all log [] = ok log
add_all log (op ∷ ops) = do (next, _) ← add log op; add_all next ops

unfoldable pub from_ops : List Op → Result OpLog
from_ops ops = add_all [] ops

-- The loop of `add_many`: `pending` is looked up before the log.
unfoldable pub add_pending : OpLog → OpLog → List Op → Result (OpLog × List Bool)
add_pending log pending [] = ok (pending, [])
add_pending log pending (op ∷ ops) = elim (or_else (get op.op_id pending) (get op.op_id log)) [
  | none ↦ do
    (rest, results) ← add_pending log (put op.op_id op pending) ops
    ok (rest, true ∷ results)
  | some existing ↦
      if op_eq existing op
      then (do (rest, results) ← add_pending log pending ops; ok (rest, false ∷ results))
      else raise (collision "op_id" op.op_id)
]

unfoldable pub add_many : OpLog → List Op → Result (OpLog × List Bool)
unfolding add_pending
add_many log ops = do (pending, results) ← add_pending log [] ops; ok (update log pending, results)

-- `iter_ops`: the operations in the order of their identifiers
abbrev pub iter_ops : OpLog → List Op
iter_ops log = in_order log

abbrev pub op_ids : OpLog → List String
op_ids log = sorted (keys log)

unfoldable pub copy : OpLog → Result OpLog
copy log = from_ops (iter_ops log)

-- A log holds each operation once, under its own identifier.
pub record IsLog (log : OpLog) : Type 0 where
  pub is_dict : IsDict log
  pub keyed : (id : String) (op : Op) → get id log ≡ some op → op.op_id ≡ id
