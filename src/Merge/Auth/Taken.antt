-- ===== src/Merge/Auth/Taken.antt =====
-- The loop of an authenticated merge: what it takes, lists and quarantines when it returns.
use statefuse.Base.{
  String, ◌≡◌, refl, sym, ◌∙◌, ap, subst, Bool, true, false, Option, none, some, List, [], ◌∷◌,
  ◌++◌, ◌+◌, arith, length, length-append, append_nil, if◌then◌else◌,
}
use statefuse.Base.Dict.{get, or_else}
use statefuse.Base.Order.{string_key, ◌==◌}
use statefuse.Base.Sorted.{contains, IsDistinct}
use statefuse.Result.{Result, ok, raise, >>=-eq-ok, ok-injective}
use statefuse.Host.{Host}
use statefuse.Ops.{Op}
use statefuse.OpLog.{OpLog}
use statefuse.OpLog.Lookup.{find, ids}
use statefuse.Merge.{MergeReport, QuarantinedOp}
use statefuse.Merge.Rounds.{
  accounted, receive_total, receive-Agrees, Agrees, added_of, duplicate_of, collision_of, added_to,
  duplicates_in, append_round, or_else-none,
}
use statefuse.Merge.Auth.{
  Policy, authenticated_reason, unauthenticated, receive_judged, receive_authenticated,
}

-- The policy has nothing against the operation.
abbrev pub passes : Result (Option String) → Bool
passes (ok none) = true
passes (ok (some reason)) = false
passes (raise error) = false

abbrev added_if : Option String → Option Op → Op → List String
added_if none o op = added_of o op
added_if (some reason) o op = []

abbrev duplicate_if : Option String → Option Op → Op → List String
duplicate_if none o op = duplicate_of o op
duplicate_if (some reason) o op = []

abbrev pub refused_of : Result (Option String) → Option Op → Op → List QuarantinedOp
refused_of (ok none) o op = collision_of o op
refused_of (ok (some reason)) o op = unauthenticated op reason ∷ []
refused_of (raise error) o op = []

module _ (r : MergeReport) (op : Op) where
  pub record Judged (reason : Option String) (s : MergeReport) : Type 0 where
    lookups :
        (id : String)
        → get id s.merged
          ≡ or_else
              (get id r.merged)
              (if passes (ok reason) then (if op.op_id == id then some op else none) else none)
    count : accounted s ≡ accounted r + 1
    added : s.added_op_ids ≡ r.added_op_ids ++ added_if reason (get op.op_id r.merged) op
    duplicates :
        s.duplicate_op_ids ≡ r.duplicate_op_ids ++ duplicate_if reason (get op.op_id r.merged) op
    refused : s.quarantined ≡ r.quarantined ++ refused_of (ok reason) (get op.op_id r.merged) op

  pub receive_judged_total :
      (reason : Option String)
      → (s : MergeReport) × (receive_judged r op reason ≡ ok s)
        × Judged reason s
        × ((a : OpLog) (ops : List Op)
            → contains op.op_id (ids ops) ≡ false
            → Agrees r.merged a ops
            → Agrees s.merged a ops)
  unfolding receive_judged
  receive_judged_total none =
      let (s, e, round) = receive_total r op in
      (
        s,
        e,
        record {
          lookups = round.lookups;
          count = round.count;
          added = round.added;
          duplicates = round.duplicates;
          refused = round.collisions;
        },
        λ a ops. receive-Agrees a r s op ops round,
      )
  receive_judged_total (some reason) = (
    _,
    refl,
    record {
      lookups = λ id. or_else-none (get id r.merged);
      count = omega (arith, length-append r.quarantined (unauthenticated op reason ∷ []));
      added = sym (append_nil r.added_op_ids);
      duplicates = sym (append_nil r.duplicate_op_ids);
      refused = refl;
    },
    λ a ops apart same. same,
  )

module _ (h : Host) (p : Policy) where
  -- The incoming operations that the policy has nothing against.
  unfoldable pub accepted : List Op → List Op
  unfolding authenticated_reason
  accepted [] = []
  accepted (op ∷ ops) =
      let rest = accepted ops in if passes (authenticated_reason h p op) then op ∷ rest else rest

  -- What is quarantined: the operations that the policy refuses, and of the others those that
  -- collide with the first log.
  abbrev pub refused_by : OpLog → List Op → List QuarantinedOp
  refused_by a [] = []
  refused_by a (op ∷ ops) =
      refused_of (authenticated_reason h p op) (get op.op_id a) op ++ refused_by a ops

  -- What the loop leaves, against the first log.
  pub record Taken (a : OpLog) (r : MergeReport) (ops : List Op) (s : MergeReport) : Type 0 where
    pub count : accounted s ≡ accounted r + length ops
    pub added : s.added_op_ids ≡ r.added_op_ids ++ added_to a (accepted ops)
    pub duplicates : s.duplicate_op_ids ≡ r.duplicate_op_ids ++ duplicates_in a (accepted ops)
    pub refused : s.quarantined ≡ r.quarantined ++ refused_by a ops

  added_accepted :
      (a : OpLog) (op : Op) (ops : List Op) (reason : Option String)
      → authenticated_reason h p op ≡ ok reason
      → added_to a (accepted (op ∷ ops))
        ≡ added_if reason (get op.op_id a) op ++ added_to a (accepted ops)
  unfolding accepted
  added_accepted a op ops none e = rw e refl
  added_accepted a op ops (some reason) e = rw e refl

  duplicates_accepted :
      (a : OpLog) (op : Op) (ops : List Op) (reason : Option String)
      → authenticated_reason h p op ≡ ok reason
      → duplicates_in a (accepted (op ∷ ops))
        ≡ duplicate_if reason (get op.op_id a) op ++ duplicates_in a (accepted ops)
  unfolding accepted
  duplicates_accepted a op ops none e = rw e refl
  duplicates_accepted a op ops (some reason) e = rw e refl

  find_round :
      (r s t : MergeReport) (op : Op) (ops : List Op) (reason : Option String) (id : String)
      → authenticated_reason h p op ≡ ok reason
      → get id s.merged
        ≡ or_else
            (get id r.merged)
            (if passes (ok reason) then (if op.op_id == id then some op else none) else none)
      → get id t.merged ≡ or_else (get id s.merged) (find id (accepted ops))
      → get id t.merged ≡ or_else (get id r.merged) (find id (accepted (op ∷ ops)))
  unfolding accepted find
  find_round r s t op ops none id e one more = rw e (ground (arith, one, more))
  find_round r s t op ops (some reason) id e one more = rw e (ground (arith, one, more))

  -- The log after a loop that returns.
  pub receive_authenticated-lookups :
      (r : MergeReport) (ops : List Op) {s : MergeReport}
      → receive_authenticated h p r ops ≡ ok s
      → (id : String) → get id s.merged ≡ or_else (get id r.merged) (find id (accepted ops))
  unfolding receive_authenticated accepted find
  receive_authenticated-lookups r [] done id =
      ap (λ x. get id x.merged) (sym (ok-injective done)) ∙ or_else-none (get id r.merged)
  receive_authenticated-lookups r (op ∷ ops) {s} done id =
      let (reason, judged, d1) = >>=-eq-ok (authenticated_reason h p op) _ done in
      let (middle, first, d2) = >>=-eq-ok (receive_judged r op reason) _ d1 in
      let (next, e, round, _) = receive_judged_total r op reason in
      let equal : next ≡ middle = ok-injective (sym e ∙ first) in
      find_round r next s op ops reason id judged (round.lookups id) (
        receive_authenticated-lookups next ops
          (ap (λ x. receive_authenticated h p x ops) equal ∙ d2) id)

  -- The lists after a loop that returns.
  pub receive_authenticated-Taken :
      (a : OpLog) (r : MergeReport) (ops : List Op) {s : MergeReport}
      → IsDistinct (ids ops)
      → Agrees r.merged a ops
      → receive_authenticated h p r ops ≡ ok s
      → Taken a r ops s
  unfolding receive_authenticated accepted find
  receive_authenticated-Taken a r [] {s} distinct same done =
      subst (Taken a r []) (ok-injective done) (record {
        count = omega arith;
        added = sym (append_nil r.added_op_ids);
        duplicates = sym (append_nil r.duplicate_op_ids);
        refused = sym (append_nil r.quarantined);
      })
  receive_authenticated-Taken a r (op ∷ ops) {s} distinct same done =
      let (reason, judged, d1) = >>=-eq-ok (authenticated_reason h p op) _ done in
      let (middle, first, d2) = >>=-eq-ok (receive_judged r op reason) _ d1 in
      let (next, e, round, keeps) = receive_judged_total r op reason in
      let equal : next ≡ middle = ok-injective (sym e ∙ first) in
      let rest =
        receive_authenticated-Taken a next ops distinct.1 (keeps a ops distinct.0 same.1)
          (ap (λ x. receive_authenticated h p x ops) equal ∙ d2) in
      record {
        count = omega (arith, rest.count, round.count);
        added =
            append_round r.added_op_ids (added_to a (accepted ops)) round.added
              (ap (λ o. added_if reason o op) same.0) rest.added
            ∙ ap (λ l. r.added_op_ids ++ l) (sym (added_accepted a op ops reason judged));
        duplicates =
            append_round r.duplicate_op_ids (duplicates_in a (accepted ops)) round.duplicates
              (ap (λ o. duplicate_if reason o op) same.0) rest.duplicates
            ∙ ap (λ l. r.duplicate_op_ids ++ l) (sym (duplicates_accepted a op ops reason judged));
        refused =
            append_round r.quarantined (refused_by a ops) round.refused
              (ap (λ o. refused_of (ok reason) o op) same.0) rest.refused
            ∙ ap (λ m. r.quarantined ++ (refused_of m (get op.op_id a) op ++ refused_by a ops))
                (sym judged);
      }
