-- ===== src/Merge.antt =====
-- merge.py: union of two logs, and the merges that quarantine what they do not accept.
pub mod Join
pub mod Rounds
pub mod Checked
pub mod Auth
use statefuse.Base.{String, ◌≡◌, Bool, true, Option, none, some, List, [], ◌∷◌, ◌++◌, if◌then◌else◌}
use statefuse.Base.Dict.{get}
use statefuse.Base.Order.{string_key}
use statefuse.Result.{Result, ok, ◌>>=◌}
use statefuse.Ops.{Op}
use statefuse.Ops.Equality.{op_eq}
use statefuse.OpLog.{OpLog, add, add_all, from_ops, iter_ops}

unfoldable pub merge : OpLog → OpLog → Result OpLog
merge a b = do merged ← from_ops (iter_ops a); add_all merged (iter_ops b)

pub record QuarantinedOp : Type 0 where
  pub op_id : String
  pub kept_op : Op
  pub rejected_op : Op
  pub reason : String

pub record MergeReport : Type 0 where
  pub merged : OpLog
  pub added_op_ids : List String
  pub duplicate_op_ids : List String
  pub quarantined : List QuarantinedOp

abbrev pub empty_report : OpLog → MergeReport
empty_report log = record {
  merged = log;
  added_op_ids = [];
  duplicate_op_ids = [];
  quarantined = [];
}

abbrev pub different_payload : Op → Op → QuarantinedOp
different_payload existing op = record {
  op_id = op.op_id;
  kept_op = existing;
  rejected_op = op;
  reason = "op_id collision with different payload";
}

-- One round of the loops over the incoming operations.
unfoldable pub receive : MergeReport → Op → Result MergeReport
receive r op = elim (get op.op_id r.merged) [
  | none ↦ do
    (next, _) ← add r.merged op
    ok (record r { merged = next; added_op_ids = r.added_op_ids ++ op.op_id ∷ [] })
  | some existing ↦
      if op_eq existing op
      then ok (record r { duplicate_op_ids = r.duplicate_op_ids ++ op.op_id ∷ [] })
      else ok (record r { quarantined = r.quarantined ++ different_payload existing op ∷ [] })
]

unfoldable pub receive_all : MergeReport → List Op → Result MergeReport
receive_all r [] = ok r
receive_all r (op ∷ ops) = do next ← receive r op; receive_all next ops

unfoldable pub merge_checked : OpLog → OpLog → Result MergeReport
merge_checked a b = do
  merged ← from_ops (iter_ops a)
  receive_all (empty_report merged) (iter_ops b)
