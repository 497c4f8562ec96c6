-- ===== src/Tests/Stores.antt =====
-- The theorems on the store in memory at a store of two batches.
use statefuse.Base.{
  ℕ, String, ◌≡◌, ◌≢◌, refl, Bool, true, false, Option, none, some, List, [], ◌∷◌, arith, ◌≤◌,
  length, if◌then◌else◌,
}
use statefuse.Base.Int.{pos}
use statefuse.Base.Dict.{get, put, or_else}
use statefuse.Base.Order.{string_key}
use statefuse.Result.{ok}
use statefuse.OpLog.{add, add_many}
use statefuse.Replica.{ReplicaProgress}
use statefuse.Store.{
  InMemoryStore, StoreDelta, empty_store, append, append_many, read_after, load_replica_progress,
  save_replica_progress, reset_replica_progress,
}
use statefuse.Ops.Retraction
use statefuse.OpLog.{OpLog}
use statefuse.OpLog.Lookup.{find}
use statefuse.Store.Jsonl
use statefuse.Store.Jsonl.{Lines, encode_batch, see_lines, decode_jsonl_batch}
use statefuse.Store.Jsonl.SortOut.{AreBodies}
use statefuse.Store.Jsonl.ReadBack.{append_many-read_back}
use statefuse.Store.Invariant.{IsStore, empty_store-IsStore, append-IsStore, append_many-IsStore}
use statefuse.Store.Read.{splits}
use statefuse.Store.Resume.{Reads, read_after_total, append-cursor}
use statefuse.Tests.Data.{host, one, two, three}

abbrev stored : InMemoryStore
stored = record empty_store {
  oplog = ("op-1", one) ∷ ("op-2", two) ∷ [];
  append_order = one ∷ two ∷ [];
  batch_ends = 2 ∷ [];
}

stored-append_many : append_many empty_store (one ∷ two ∷ []) ≡ ok (stored, true ∷ true ∷ [])
unfolding append_many add_many get put statefuse.Base.Dict.update
stored-append_many = refl

append_many-IsStore_example : IsStore stored
append_many-IsStore_example =
    append_many-IsStore empty_store (one ∷ two ∷ []) empty_store-IsStore stored-append_many

stored-IsStore : IsStore stored
stored-IsStore =
    append_many-IsStore empty_store (one ∷ two ∷ []) empty_store-IsStore stored-append_many

abbrev grown : InMemoryStore
grown = record empty_store {
  oplog = ("op-1", one) ∷ ("op-2", two) ∷ ("op-3", three) ∷ [];
  append_order = one ∷ two ∷ three ∷ [];
  batch_ends = 2 ∷ 3 ∷ [];
}

grown-append : append stored three ≡ ok (grown, true)
unfolding append add get put
grown-append = refl

grown-IsStore : IsStore grown
grown-IsStore = append-IsStore stored three stored-IsStore grown-append

read_after_total_example :
    (d : StoreDelta) × (read_after grown (pos 2) (some (pos 1)) ≡ ok d) × Reads grown 2 (some 1) d
unfolding splits statefuse.Store.validate_limit
read_after_total_example =
    read_after_total grown 2 (some (pos 1)) (some 1) grown-IsStore (omega arith) refl refl

append-cursor_example : (2 ≤ length grown.append_order) × (splits 2 0 grown.batch_ends ≡ false)
unfolding splits
append-cursor_example = append-cursor stored three 2 stored-IsStore (omega arith) refl grown-append

abbrev progress : ReplicaProgress
progress = record { peer_replica_id = "beta"; cursor = 3; pending_ranges = [] }

abbrev one_line : Lines
one_line = some (encode_batch (one ∷ [])) ∷ []

appended : Jsonl.append_many host [] (one ∷ []) ≡ ok (one_line, true ∷ [])
unfolding Jsonl.append_many statefuse.Base.Sorted.in_order statefuse.Base.Sorted.select
    statefuse.Base.Sorted.sorted
appended = refl

one-AreBodies : AreBodies host (one ∷ [])
unfolding Retraction.post_init
one-AreBodies = (refl, tt)

append_many-read_back_example :
    (seen : OpLog) × (read : OpLog) × (see_lines host [] [] ≡ ok seen)
    × (see_lines host [] one_line ≡ ok read)
    × ((id : String) → get id read ≡ or_else (get id seen) (find id (one ∷ [])))
append_many-read_back_example =
    append_many-read_back host (λ s. refl) (λ x. refl) [] (one ∷ []) (one_line, true ∷ [])
      one-AreBodies appended
