-- ===== src/Store/Jsonl.antt =====
-- JsonlStore of store.py: a file of lines, each an operation or a batch of operations. A line is what
-- `json.loads` makes of its text, or nothing where that fails; the text codec is the standard
-- library's. The text lists the fields of an object sorted; here they keep their order, which no test
-- of the store reads. `append_many` writes one line.
pub mod SortOut
pub mod ReadBack
use statefuse.Base.{
  String, ℕ, Bool, true, false, Option, none, some, List, [], ◌∷◌, ◌++◌, if◌then◌else◌,
}
use statefuse.Base.Int.{ℤ, pos}
use statefuse.Base.Dict.{Dict, get, put}
use statefuse.Base.Order.{string_key}
use statefuse.Base.Sorted.{in_order}
use statefuse.Json.{Json, Items, nil, cons, int, arr, obj, object, from_fields, json_eq, to_items}
use statefuse.Result.{Result, ok, raise, value_error, type_error, collision, ◌>>=◌}
use statefuse.Host.{Host}
use statefuse.Ops
use statefuse.Ops.{Op}
use statefuse.Ops.Equality.{op_eq}
use statefuse.OpLog.{OpLog, add_all}

abbrev pub Lines : Type 0
Lines = List (Option Json)

-- `tuple(Op.from_dict(item) for item in raw_ops)`
unfoldable pub decode_ops : Host → Items → Result (List Op)
decode_ops h nil = ok []
decode_ops h (cons (obj fs) items) = do
  op ← Ops.from_dict h (from_fields fs)
  ops ← decode_ops h items
  ok (op ∷ ops)
decode_ops h (cons _ items) = raise (type_error "An operation must be an object.")

-- `value.get("statefuse_batch") == 1`
abbrev pub is_batch : Option Json → Bool
is_batch none = false
is_batch (some v) = json_eq v (int (pos 1))

-- `raw_ops` must be a list, and not the empty one.
unfoldable pub decode_raw_ops : Host → Option Json → Result (List Op)
unfolding decode_ops
decode_raw_ops h (some (arr (cons item items))) = decode_ops h (cons item items)
decode_raw_ops h _ = raise (value_error "A JSONL batch must contain operations.")

unfoldable pub decode_jsonl_batch : Host → Json → Result (List Op)
unfolding decode_raw_ops get
decode_jsonl_batch h (obj fs) =
    let value = from_fields fs in
    let batch = decode_raw_ops h (get "ops" value) in
    let single = (do op ← Ops.from_dict h value; ok (op ∷ [])) in
    if is_batch (get "statefuse_batch" value) then batch else single
decode_jsonl_batch h _ = raise (value_error "A JSONL operation must be an object.")

-- A line that does not decode is passed over.
unfoldable pub line_ops : Host → Option Json → List Op
unfolding decode_jsonl_batch
line_ops h none = []
line_ops h (some v) = elim (decode_jsonl_batch h v) [ ok ops ↦ ops | raise e ↦ [] ]

-- The loop of `iter_ops` with its dictionary `seen`; the inner loop is that of `OpLog`.
unfoldable pub see_lines : Host → OpLog → Lines → Result OpLog
unfolding line_ops add_all
see_lines h seen [] = ok seen
see_lines h seen (line ∷ lines) = do next ← add_all seen (line_ops h line); see_lines h next lines

unfoldable pub iter_ops : Host → Lines → Result (List Op)
unfolding see_lines
iter_ops h lines = do seen ← see_lines h [] lines; ok (in_order seen)

-- `{op.op_id: op for op in self.iter_ops()}`
unfoldable pub by_op_id : OpLog → List Op → OpLog
by_op_id d [] = d
by_op_id d (op ∷ ops) = by_op_id (put op.op_id op d) ops

-- The loop of `append_many`: `added` and `results`.
unfoldable pub sort_out : OpLog → List Op → Result (List Op × List Bool)
sort_out existing [] = ok ([], [])
sort_out existing (op ∷ ops) = elim (get op.op_id existing) [
  | some current ↦
      if op_eq current op
      then (do (added, results) ← sort_out existing ops; ok (added, false ∷ results))
      else raise (collision "op_id" op.op_id)
  | none ↦ do
    (added, results) ← sort_out (put op.op_id op existing) ops
    ok (op ∷ added, true ∷ results)
]

abbrev pub written_ops : List Op → List Json
written_ops [] = []
written_ops (op ∷ ops) = object (Ops.to_dict op) ∷ written_ops ops

unfoldable pub encode_batch : List Op → Json
encode_batch added =
    object (("ops", arr (to_items (written_ops added))) ∷ ("statefuse_batch", int (pos 1)) ∷ [])

-- A line is written only if something was added.
unfoldable pub write_batch : Lines → List Op → Lines
unfolding encode_batch
write_batch lines [] = lines
write_batch lines (op ∷ added) = lines ++ (some (encode_batch (op ∷ added)) ∷ [])

unfoldable pub append_many : Host → Lines → List Op → Result (Lines × List Bool)
unfolding iter_ops by_op_id sort_out write_batch
append_many h lines ops = do
  stored ← iter_ops h lines
  (added, results) ← sort_out (by_op_id [] stored) ops
  ok (write_batch lines added, results)
