-- ===== src/Store.antt =====
-- store.py: what a store hands out, and the store in memory. Its lock is left out: each method runs
-- as one step. A cursor that a store returns is never negative, so it is a number here.
pub mod Invariant
pub mod Read
pub mod Resume
pub mod Progress
pub mod Jsonl
use text.Mathlib.Text.{◌==◌}
use statefuse.Base.{
  ℕ, String, Bool, true, false, not, ◌&&◌, ◌||◌, ◌+◌, ◌-◌, ◌≤◌, ◌<◌, ◌≡◌, Option, none, some, List,
  [], ◌∷◌, ◌++◌, if◌then◌else◌, ltb, leb, length, take, drop, any, zero, suc,
}
use statefuse.Base.{◌==◌ as nat_eq}
use statefuse.Base.Int.{ℤ, pos, negsuc}
use statefuse.Base.Dict.{Dict, get, put, pop, has}
use statefuse.Base.Order.{string_key}
use statefuse.Result.{Result, ok, raise, value_error, raise_if, ◌>>=◌, ◌>>◌}
use statefuse.Ops.{Op}
use statefuse.OpLog
use statefuse.OpLog.{OpLog, add, add_many}
use statefuse.Replica.{ReplicaProgress, post_init}
use statefuse.Replica.Batches.{sum, batches_from}

pub record StoreDelta : Type 0 where
  pub cursor : ℕ
  pub ops : List Op
  pub batch_sizes : List ℕ

-- `(1,) * count`
unfoldable pub ones : ℕ → List ℕ
ones zero = []
ones (suc n) = 1 ∷ ones n

-- `tuple(self.batch_sizes) or (1,) * len(self.ops)`
unfoldable pub sizes_or_ones : List ℕ → ℕ → List ℕ
unfolding ones
sizes_or_ones [] count = ones count
sizes_or_ones (n ∷ sizes) count = n ∷ sizes

unfoldable pub delta_post_init : StoreDelta → Result StoreDelta
unfolding sizes_or_ones
delta_post_init d = do
  let sizes = sizes_or_ones d.batch_sizes (length d.ops)
  raise_if (any (λ n. ltb n 1) sizes || not (nat_eq (sum sizes) (length d.ops)))
      (value_error "Store delta batch sizes must cover every operation.")
  ok (record d { batch_sizes = sizes })

unfoldable pub delta_batches : StoreDelta → List (List Op)
unfolding batches_from
delta_batches d = batches_from d.ops 0 d.batch_sizes

pub record MaterializationCheckpoint : Type 0 where
  pub version : String
  pub config_token : String
  pub cursor : ℤ
  pub payload : String

pub record InMemoryStore : Type 0 where
  pub oplog : OpLog
  pub append_order : List Op
  pub batch_ends : List ℕ
  pub checkpoint : Option MaterializationCheckpoint
  pub replica_progress : Dict String ReplicaProgress

abbrev pub empty_store : InMemoryStore
empty_store = record {
  oplog = [];
  append_order = [];
  batch_ends = [];
  checkpoint = none;
  replica_progress = [];
}

unfoldable pub append : InMemoryStore → Op → Result (InMemoryStore × Bool)
append s op = do
  (log, added) ← add s.oplog op
  let order = s.append_order ++ (op ∷ [])
  let grown = record s {
    oplog = log;
    append_order = order;
    batch_ends = s.batch_ends ++ (length order ∷ []);
  }
  ok (if added then grown else record s { oplog = log }, added)

-- `[op for op, was_added in zip(ops, results) if was_added]`
unfoldable pub chosen : List Op → List Bool → List Op
chosen (op ∷ ops) (true ∷ results) = op ∷ chosen ops results
chosen (op ∷ ops) (false ∷ results) = chosen ops results
chosen _ _ = []

-- The list of ends grows only when something was added.
unfoldable pub close_batch : List ℕ → List Op → ℕ → List ℕ
close_batch ends [] reached = ends
close_batch ends (op ∷ added) reached = ends ++ (reached ∷ [])

unfoldable pub append_many : InMemoryStore → List Op → Result (InMemoryStore × List Bool)
unfolding chosen close_batch
append_many s ops = do
  (log, results) ← add_many s.oplog ops
  let added = chosen ops results
  let order = s.append_order ++ added
  ok (
    record s {
      oplog = log;
      append_order = order;
      batch_ends = close_batch s.batch_ends added (length order);
    },
    results,
  )

abbrev pub iter_ops : InMemoryStore → List Op
iter_ops s = OpLog.iter_ops s.oplog

abbrev pub has_op : InMemoryStore → String → Bool
has_op s id = has id s.oplog

-- The loop of `find_ops` over the identifiers that are asked for.
unfoldable pub found_ops : InMemoryStore → List String → Dict String Op → Dict String Op
found_ops s [] sofar = sofar
found_ops s (id ∷ ids) sofar = elim (get id s.oplog) [
  | none ↦ found_ops s ids sofar
  | some op ↦ found_ops s ids (put id op sofar)
]

unfoldable pub find_ops : InMemoryStore → List String → Dict String Op
unfolding found_ops
find_ops s ids = found_ops s ids []

abbrev pub load_oplog : InMemoryStore → Result OpLog
load_oplog s = OpLog.copy s.oplog

unfoldable pub validate_limit : Option ℤ → Result (Option ℕ)
validate_limit none = ok none
validate_limit (some (pos (suc n))) = ok (some (suc n))
validate_limit (some _) = raise (value_error "Operation read limit must be positive.")

-- `limit is not None and total >= limit`
abbrev pub is_full : Option ℕ → ℕ → Bool
is_full none total = false
is_full (some limit) total = leb limit total

-- The loop of `read_after` over the ends of the batches: the cursor reached and the sizes read. The
-- ends ascend, so that `end - previous` is not below 0.
unfoldable pub read_batches : ℕ → Option ℕ → ℕ → List ℕ → ℕ → List ℕ → Result (ℕ × List ℕ)
read_batches cursor limit previous sizes cursor_after [] = ok (cursor_after, sizes)
read_batches cursor limit previous sizes cursor_after (end ∷ ends) =
    let taken = ltb cursor end in
    let sizes = if taken then sizes ++ ((end - previous) ∷ []) else sizes in
    let cursor_after = if taken then end else cursor_after in
    let rest = read_batches cursor limit end sizes cursor_after ends in
    if ltb previous cursor && ltb cursor end
    then raise (value_error "In-memory operation cursor splits a committed batch.")
    else if taken && is_full limit (sum sizes)
    then ok (cursor_after, sizes)
    else rest

-- A cursor that `read_after` accepts.
unfoldable pub check_cursor : InMemoryStore → ℤ → Result ℕ
check_cursor s (negsuc n) = raise (value_error "Invalid in-memory operation cursor.")
check_cursor s (pos cursor) =
    if ltb (length s.append_order) cursor
    then raise (value_error "Invalid in-memory operation cursor.")
    else ok cursor

unfoldable pub read_after : InMemoryStore → ℤ → Option ℤ → Result StoreDelta
unfolding check_cursor validate_limit read_batches delta_post_init
read_after s cursor limit = do
  start ← check_cursor s cursor
  limit ← validate_limit limit
  (cursor_after, sizes) ← read_batches start limit 0 [] start s.batch_ends
  delta_post_init (record {
    cursor = cursor_after;
    ops = take (cursor_after - start) (drop start s.append_order);
    batch_sizes = sizes;
  })

abbrev pub save_checkpoint : InMemoryStore → MaterializationCheckpoint → InMemoryStore
save_checkpoint s c = record s { checkpoint = some c }

-- The default that `dict.get` takes is built in any case, and refuses an empty name.
unfoldable pub load_replica_progress : InMemoryStore → String → Result ReplicaProgress
unfolding post_init
load_replica_progress s peer = do
  fresh ← post_init (record { peer_replica_id = peer; cursor = 0; pending_ranges = [] })
  ok (elim (get peer s.replica_progress) [ none ↦ fresh | some p ↦ p ])

unfoldable pub save_replica_progress : InMemoryStore → ReplicaProgress → InMemoryStore
save_replica_progress s p = record s {
  replica_progress = put p.peer_replica_id p s.replica_progress;
}

unfoldable pub reset_replica_progress : InMemoryStore → String → InMemoryStore
reset_replica_progress s peer = record s { replica_progress = pop peer s.replica_progress }
