-- ===== src/Merge/Checked.antt =====
-- `merge_checked`: the union of the logs, the three lists of incoming operations, and how it agrees
-- with `merge` where that does not raise.
use statefuse.Base.{
  String, ◌≡◌, refl, sym, ◌∙◌, subst, Bool, true, false, Option, none, some, List, [], ◌∷◌, ◌++◌,
  ◌+◌, arith, if◌then◌else◌, All, All-append, Option-cases, Bool-cases, inl, inr, length,
  append_nil, ap,
}
use statefuse.Base.Dict.{get, or_else}
use statefuse.Base.Order.{string_key}
use statefuse.Base.Sorted.{IsDistinct}
use statefuse.Result.{ok, >>=-eq-ok, ok-injective}
use statefuse.Ops.{Op}
use statefuse.Ops.Equality.{op_eq}
use statefuse.OpLog.{OpLog, IsLog, add, add_all, from_ops, iter_ops}
use statefuse.OpLog.Lookup.{find, ids, find-iter_ops, iter_ops-IsDistinct}
use statefuse.OpLog.Add.{add_new, add_known}
use statefuse.Merge.{
  merge, MergeReport, empty_report, different_payload, receive, receive_all, merge_checked,
}
use statefuse.Merge.Join.{copy_total}
use statefuse.Merge.Rounds.{
  accounted, IsCollision, added_of, duplicate_of, collision_of, added_to, duplicates_in,
  collisions_with, receive_new, receive_same, receive_total, Agrees, receive-Agrees, append_round,
  or_else-none, agree,
}

-- What the loop leaves, against the first log.
record ReceivedAll (a : OpLog) (r : MergeReport) (ops : List Op) (s : MergeReport) : Type 0 where
  lookups : (id : String) → get id s.merged ≡ or_else (get id r.merged) (find id ops)
  count : accounted s ≡ accounted r + length ops
  added : s.added_op_ids ≡ r.added_op_ids ++ added_to a ops
  duplicates : s.duplicate_op_ids ≡ r.duplicate_op_ids ++ duplicates_in a ops
  collisions : s.quarantined ≡ r.quarantined ++ collisions_with a ops

receive_all_total :
    (a : OpLog) (r : MergeReport) (ops : List Op)
    → IsDistinct (ids ops)
    → Agrees r.merged a ops
    → (s : MergeReport) × (receive_all r ops ≡ ok s) × ReceivedAll a r ops s
unfolding receive_all find
receive_all_total a r [] distinct same = (
  r,
  refl,
  record {
    lookups = λ id. or_else-none (get id r.merged);
    count = omega arith;
    added = sym (append_nil r.added_op_ids);
    duplicates = sym (append_nil r.duplicate_op_ids);
    collisions = sym (append_nil r.quarantined);
  },
)
receive_all_total a r (op ∷ ops) distinct same =
    let (next, e, round) = receive_total r op in
    let (s, f, rest) =
      receive_all_total a next ops distinct.1
        (receive-Agrees a r next op ops round distinct.0 same.1) in
    (
      s,
      rw e f,
      record {
        lookups = λ id. ground (arith, rest.lookups id, round.lookups id);
        count = omega (arith, rest.count, round.count);
        added =
            append_round r.added_op_ids (added_to a ops) round.added
              (ap (λ o. added_of o op) same.0) rest.added;
        duplicates =
            append_round r.duplicate_op_ids (duplicates_in a ops) round.duplicates
              (ap (λ o. duplicate_of o op) same.0) rest.duplicates;
        collisions =
            append_round r.quarantined (collisions_with a ops) round.collisions
              (ap (λ o. collision_of o op) same.0) rest.collisions;
      },
    )

-- A log that holds what the first one holds keeps the operations that collide with it.
pub collisions-IsCollision :
    (a m : OpLog) (ops : List Op)
    → ((id : String) (x : Op) → get id a ≡ some x → get id m ≡ some x)
    → All (IsCollision m) (collisions_with a ops)
collisions-IsCollision a m [] keeps = tt
collisions-IsCollision a m (op ∷ ops) keeps =
    All-append (IsCollision m) (collision_of (get op.op_id a) op) (collisions_with a ops)
      (one (get op.op_id a) refl) (collisions-IsCollision a m ops keeps)
  where
    other :
        (x : Op) (b : Bool)
        → get op.op_id a ≡ some x
        → op_eq x op ≡ b
        → All (IsCollision m) (if b then [] else different_payload x op ∷ [])
    other x true there same = tt
    other x false there differs = ((keeps op.op_id x there, differs, refl), tt)

    one : (o : Option Op) → get op.op_id a ≡ o → All (IsCollision m) (collision_of o op)
    one none there = tt
    one (some x) there = other x (op_eq x op) there refl

-- A checked merge of two logs never raises. Its log holds what the first log holds, or else what
-- the second holds. The operations of the second, in their order, are listed as added if the first
-- log lacks their identifier, as duplicates if it holds an equal one, and are quarantined, with the
-- one that it holds, if that differs; the three lists count each operation once; and the log keeps
-- the other operation of each that is quarantined.
pub merge_checked_total :
    (a b : OpLog)
    → IsLog a
    → IsLog b
    → (r : MergeReport) × (merge_checked a b ≡ ok r)
      × ((id : String) → get id r.merged ≡ or_else (get id a) (get id b))
      × (accounted r ≡ length (iter_ops b))
      × (r.added_op_ids ≡ added_to a (iter_ops b))
      × (r.duplicate_op_ids ≡ duplicates_in a (iter_ops b))
      × (r.quarantined ≡ collisions_with a (iter_ops b))
      × All (IsCollision r.merged) r.quarantined
unfolding merge_checked
merge_checked_total a b va vb =
    let (copied, done, valid, same) = copy_total a va in
    let (r, e, all) =
      receive_all_total a (empty_report copied) (iter_ops b) (iter_ops-IsDistinct b vb)
        (agree a copied same (iter_ops b)) in
    let lookups : (id : String) → get id r.merged ≡ or_else (get id a) (get id b) =
      λ id. ground (arith, all.lookups id, same id, find-iter_ops b vb id) in
    (
      r,
      rw done e,
      lookups,
      omega (arith, all.count),
      all.added,
      all.duplicates,
      all.collisions,
      subst (All (IsCollision r.merged)) (sym all.collisions) (
          collisions-IsCollision a r.merged (iter_ops b)
            (λ id x there. lookups id ∙ ap (λ o. or_else o (get id b)) there)),
    )

receive-add :
    (r : MergeReport) (op : Op) {m : OpLog × Bool}
    → add r.merged op ≡ ok m
    → (s : MergeReport) × (receive r op ≡ ok s) × (s.merged ≡ m.0) × (s.quarantined ≡ r.quarantined)
receive-add r op {m} e = elim (Option-cases (get op.op_id r.merged)) [
  | inl fresh ↦ (
    _,
    receive_new r op fresh,
    ground (arith, ok-injective (sym (add_new op r.merged fresh) ∙ e)),
    refl,
  )
  | inr (x, there) ↦ elim (Bool-cases (op_eq x op)) [
    | inl same ↦ (
      _,
      receive_same r op x there same,
      ground (arith, same, add_known op r.merged x there),
      refl,
    )
    | inr other ↦ absurd (ground (arith, other, add_known op r.merged x there))
  ]
]

receive_all-add_all :
    (r : MergeReport) (ops : List Op) {m : OpLog}
    → add_all r.merged ops ≡ ok m
    → (s : MergeReport) × (receive_all r ops ≡ ok s)
      × (s.merged ≡ m)
      × (s.quarantined ≡ r.quarantined)
unfolding receive_all add_all
receive_all-add_all r [] e = (r, refl, ok-injective e, refl)
receive_all-add_all r (op ∷ ops) {m} e =
    let ((next, new), added, rest) = >>=-eq-ok (add r.merged op) (λ p. add_all p.0 ops) e in
    let (s, f, same, kept) = receive-add r op added in
    let (t, g, done, quiet) =
      receive_all-add_all s ops {m = m} (subst (λ l. add_all l ops ≡ ok m) (sym same) rest) in
    (t, rw f g, done, quiet ∙ kept)

-- If `merge` returns a log, the checked merge returns the same log with an empty quarantine.
pub merge_checked-merge :
    (a b m : OpLog)
    → merge a b ≡ ok m
    → (r : MergeReport) × (merge_checked a b ≡ ok r) × (r.merged ≡ m) × (r.quarantined ≡ [])
unfolding merge merge_checked
merge_checked-merge a b m e =
    let (copied, done, rest) = >>=-eq-ok (from_ops (iter_ops a)) (λ l. add_all l (iter_ops b)) e in
    let (r, f, same, quiet) = receive_all-add_all (empty_report copied) (iter_ops b) rest in
    (r, rw done f, same, quiet)
