-- ===== src/Replica.antt =====
-- replica.py: what a replica has received of a peer's log, and the deltas that replicas exchange.
pub mod Cover
pub mod Normal
pub mod Batches
use text.Mathlib.Text.{◌==◌}
use statefuse.Base.{
  ℕ, String, Bool, true, false, not, ◌&&◌, ◌||◌, max, Option, List, [], ◌∷◌, ◌++◌, if◌then◌else◌,
  ltb, leb, any,
}
use statefuse.Base.{◌==◌ as nat_eq}
use statefuse.Base.Int.{ℤ, pos, negsuc}
use statefuse.Base.Order.{nat_key, pair_key}
use statefuse.Base.Sorted.{sorted}
use statefuse.Result.{Result, ok, raise, value_error, raise_if, ◌>>=◌, ◌>>◌}

-- From the first cursor up to, and without, the second.
abbrev pub Range : Type 0
Range = ℕ × ℕ

pub record ReplicaProgress : Type 0 where
  pub peer_replica_id : String
  pub cursor : ℕ
  pub pending_ranges : List Range

unfoldable pub post_init : ReplicaProgress → Result ReplicaProgress
post_init p = do
  raise_if (p.peer_replica_id == "") (value_error "ReplicaProgress.peer_replica_id is required.")
  raise_if (any (λ r. leb r.1 r.0) p.pending_ranges)
      (value_error "Replica progress ranges must be positive cursor intervals.")
  ok (record p { pending_ranges = sorted p.pending_ranges })

-- The first loop: `s`, `e` is the last range of `merged`, which a range that touches it extends.
unfoldable pub coalesce_from : ℕ → ℕ → List Range → List Range
coalesce_from s e [] = (s, e) ∷ []
coalesce_from s e ((start, end) ∷ rest) =
    let extended = coalesce_from s (max e end) rest in
    let apart = (s, e) ∷ coalesce_from start end rest in if leb start e then extended else apart

unfoldable pub coalesce : List Range → List Range
unfolding coalesce_from
coalesce [] = []
coalesce ((start, end) ∷ rest) = coalesce_from start end rest

-- The second loop: the cursor moves over the ranges that it touches.
unfoldable pub absorb : ℕ → List Range → ℕ × List Range
absorb cursor [] = (cursor, [])
absorb cursor ((start, end) ∷ rest) =
    let reached = absorb (max cursor end) rest in
    let later = absorb cursor rest in
    if leb start cursor
    then reached
    else if ltb cursor end
    then (later.0, (start, end) ∷ later.1)
    else later

-- The cursors of an update are integers; those that are refused never reach the loops.
unfoldable pub check_range : ℤ → ℤ → Result Range
check_range (pos before) (pos after) =
    if ltb after before
    then raise (value_error "Replica progress update has an invalid cursor range.")
    else ok (before, after)
check_range _ _ = raise (value_error "Replica progress update has an invalid cursor range.")

-- The body of `advance_replica_progress` for a range that was accepted.
unfoldable pub advance_by : ReplicaProgress → Range → Result ReplicaProgress
unfolding coalesce absorb post_init
advance_by progress (before, after) =
    if nat_eq before after
    then ok progress
    else (let merged = coalesce (sorted (progress.pending_ranges ++ (before, after) ∷ [])) in
        let (cursor, pending) = absorb progress.cursor merged in
        post_init (record progress { cursor = cursor; pending_ranges = pending }))

unfoldable pub advance_replica_progress : ReplicaProgress → ℤ → ℤ → Result ReplicaProgress
unfolding check_range advance_by
advance_replica_progress progress cursor_before cursor_after = do
  range ← check_range cursor_before cursor_after
  advance_by progress range
