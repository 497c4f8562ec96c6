-- ===== src/Tests/Merges.antt =====
-- The theorems on logs and merges at small logs.
use statefuse.Base.{
  ℕ, String, ◌≡◌, ◌≢◌, refl, sym, ◌∙◌, Bool, true, false, Option, none, some, List, [], ◌∷◌, ◌++◌,
  arith, if◌then◌else◌, length, ◌+◌, All, eq_iff,
}
use statefuse.Base.Dict.{get, put, or_else}
use statefuse.Base.Order.{string_key}
use statefuse.Result.{ok}
use statefuse.Ops.{Op}
use statefuse.OpLog.{OpLog, add, add_all, from_ops, iter_ops, add_many}
use statefuse.OpLog.Add.{add_all_total}
use statefuse.OpLog.Batch.{add_many-add_each, add_each, SameRun}
use statefuse.Merge.{merge, merge_checked, MergeReport}
use statefuse.Merge.Join.{
  SameOps, Compatible, merge_comm, merge_assoc, merge_total, merge-Compatible, get-merge,
}
use statefuse.Merge.Rounds.{accounted, IsCollision, added_to, duplicates_in, collisions_with}
use statefuse.Merge.Checked.{merge_checked_total, merge_checked-merge}
use statefuse.Tests.Data.{one, one_other, two, three, log_of, log_of-IsLog}

abbrev one_two : OpLog
one_two = ("op-1", one) ∷ ("op-2", two) ∷ []

abbrev one_two_three : OpLog
one_two_three = ("op-1", one) ∷ ("op-2", two) ∷ ("op-3", three) ∷ []

merged_one_two : merge (log_of one) (log_of two) ≡ ok one_two
unfolding merge from_ops add_all statefuse.Base.Sorted.in_order statefuse.Base.Sorted.select
    statefuse.Base.Sorted.sorted get add put
merged_one_two = refl

merged_one_two_three : merge one_two (log_of three) ≡ ok one_two_three
unfolding merge from_ops add_all statefuse.Base.Sorted.in_order statefuse.Base.Sorted.select
    statefuse.Base.Sorted.sorted get add put statefuse.Base.Order.str_leb
merged_one_two_three = refl

merge_comm_example : (n : OpLog) × (merge (log_of two) (log_of one) ≡ ok n) × SameOps one_two n
merge_comm_example =
    merge_comm (log_of one) (log_of two) one_two (log_of-IsLog one) (log_of-IsLog two)
      merged_one_two

merge_assoc_example :
    (bc : OpLog) × (merge (log_of two) (log_of three) ≡ ok bc)
    × (n : OpLog) × (merge (log_of one) bc ≡ ok n)
    × (iter_ops one_two_three ≡ iter_ops n)
merge_assoc_example =
    merge_assoc (log_of one) (log_of two) (log_of three) one_two (log_of-IsLog one)
      (log_of-IsLog two) (log_of-IsLog three) merged_one_two one_two_three merged_one_two_three

stored_under : (op x : Op) (id : String) → get id (log_of op) ≡ some x → op.op_id ≡ id
unfolding get
stored_under op x id there = ground (arith, there, eq_iff op.op_id id)

apart : Compatible (log_of one) (log_of two)
apart x y in_one in_two =
    absurd (differ (stored_under one x x.op_id in_one ∙ sym (stored_under two y x.op_id in_two)))
  where
    differ : one.op_id ≡ two.op_id → ⊥
    differ e = let same : false ≡ true = (eq_iff one.op_id two.op_id).1 e in absurd cc

merge_total_example : (m : OpLog) × (merge (log_of one) (log_of two) ≡ ok m)
merge_total_example =
    merge_total (log_of one) (log_of two) (log_of-IsLog one) (log_of-IsLog two) apart

merge-Compatible_example : Compatible (log_of one) (log_of two)
merge-Compatible_example =
    merge-Compatible (log_of one) (log_of two) (log_of-IsLog one) (log_of-IsLog two) one_two
      merged_one_two

get-merge_example : get "op-2" one_two ≡ or_else (get "op-2" (log_of one)) (get "op-2" (log_of two))
get-merge_example =
    get-merge (log_of one) (log_of two) (log_of-IsLog one) (log_of-IsLog two) one_two merged_one_two
      "op-2"

merge_checked_total_example :
    (r : MergeReport) × (merge_checked (log_of one) (log_of one_other) ≡ ok r)
    × ((id : String) → get id r.merged ≡ or_else (get id (log_of one)) (get id (log_of one_other)))
    × (accounted r ≡ length (iter_ops (log_of one_other)))
    × (r.added_op_ids ≡ added_to (log_of one) (iter_ops (log_of one_other)))
    × (r.duplicate_op_ids ≡ duplicates_in (log_of one) (iter_ops (log_of one_other)))
    × (r.quarantined ≡ collisions_with (log_of one) (iter_ops (log_of one_other)))
    × All (IsCollision r.merged) r.quarantined
merge_checked_total_example =
    merge_checked_total (log_of one) (log_of one_other) (log_of-IsLog one) (log_of-IsLog one_other)

merge_checked-merge_example :
    (r : MergeReport) × (merge_checked (log_of one) (log_of two) ≡ ok r)
    × (r.merged ≡ one_two)
    × (r.quarantined ≡ [])
merge_checked-merge_example = merge_checked-merge (log_of one) (log_of two) one_two merged_one_two

add_all_total_example : (m : OpLog) × (add_all (log_of one) (two ∷ three ∷ []) ≡ ok m)
unfolding get statefuse.Base.Sorted.contains
add_all_total_example =
    add_all_total (log_of one) (two ∷ three ∷ []) (refl, (refl, tt)) (refl, (refl, tt))

add_many-add_each_example :
    SameRun
      (add_many (log_of one) (two ∷ one_other ∷ []))
      (add_each (log_of one) (two ∷ one_other ∷ []))
add_many-add_each_example = add_many-add_each (log_of one) (two ∷ one_other ∷ [])
