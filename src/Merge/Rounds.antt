-- ===== src/Merge/Rounds.antt =====
-- One round of the loops of the checked merges: what becomes of an operation, in the log, in the
-- count and in the three lists.
use statefuse.Base.{
  ℕ, String, ◌≡◌, refl, sym, ◌∙◌, true, false, Option, none, some, List, [], ◌∷◌, ◌++◌, ◌+◌, arith,
  if◌then◌else◌, All, Option-cases, Bool-cases, inl, inr, length, length-append, eq_iff, append_nil,
  append_assoc, ap,
}
use statefuse.Base.Dict.{get, put, get-put, or_else}
use statefuse.Base.Order.{string_key, ◌==◌}
use statefuse.Base.Sorted.{contains}
use statefuse.Result.{ok}
use statefuse.Ops.{Op}
use statefuse.Ops.Equality.{op_eq}
use statefuse.OpLog.{OpLog}
use statefuse.OpLog.Lookup.{ids}
use statefuse.OpLog.Add.{add_new}
use statefuse.Merge.{QuarantinedOp, MergeReport, different_payload, receive}

-- The number of incoming operations that a report accounts for.
abbrev pub accounted : MergeReport → ℕ
accounted r = length r.added_op_ids + length r.duplicate_op_ids + length r.quarantined

-- A quarantined operation differs from the one that the log keeps under its identifier.
abbrev pub IsCollision : OpLog → QuarantinedOp → Type 0
IsCollision m q =
    (get q.op_id m ≡ some q.kept_op)
    × (op_eq q.kept_op q.rejected_op ≡ false)
    × (q.rejected_op.op_id ≡ q.op_id)

-- What becomes of an operation, by what is held under its identifier.
abbrev pub added_of : Option Op → Op → List String
added_of none op = op.op_id ∷ []
added_of (some x) op = []

abbrev pub duplicate_of : Option Op → Op → List String
duplicate_of none op = []
duplicate_of (some x) op = if op_eq x op then op.op_id ∷ [] else []

abbrev pub collision_of : Option Op → Op → List QuarantinedOp
collision_of none op = []
collision_of (some x) op = if op_eq x op then [] else different_payload x op ∷ []

-- The operations that a log lacks, by their identifiers; those that it holds already; and those
-- under whose identifier it holds another one.
abbrev pub added_to : OpLog → List Op → List String
added_to log [] = []
added_to log (op ∷ ops) = added_of (get op.op_id log) op ++ added_to log ops

abbrev pub duplicates_in : OpLog → List Op → List String
duplicates_in log [] = []
duplicates_in log (op ∷ ops) = duplicate_of (get op.op_id log) op ++ duplicates_in log ops

abbrev pub collisions_with : OpLog → List Op → List QuarantinedOp
collisions_with log [] = []
collisions_with log (op ∷ ops) = collision_of (get op.op_id log) op ++ collisions_with log ops

module _ (r : MergeReport) (op : Op) where
  pub receive_new :
      get op.op_id r.merged ≡ none
      → receive r op
        ≡ ok (record r {
          merged = put op.op_id op r.merged;
          added_op_ids = r.added_op_ids ++ op.op_id ∷ [];
        })
  unfolding receive
  receive_new h = ground (arith, h, add_new op r.merged h)

  pub receive_same :
      (x : Op)
      → get op.op_id r.merged ≡ some x
      → op_eq x op ≡ true
      → receive r op ≡ ok (record r { duplicate_op_ids = r.duplicate_op_ids ++ op.op_id ∷ [] })
  unfolding receive
  receive_same x h k = ground (arith, h, k)

  pub receive_other :
      (x : Op)
      → get op.op_id r.merged ≡ some x
      → op_eq x op ≡ false
      → receive r op ≡ ok (record r { quarantined = r.quarantined ++ different_payload x op ∷ [] })
  unfolding receive
  receive_other x h k = ground (arith, h, k)

  -- What one round does to the log, to the count and to the three lists.
  pub record Received (s : MergeReport) : Type 0 where
    pub lookups :
        (id : String)
        → get id s.merged ≡ or_else (get id r.merged) (if op.op_id == id then some op else none)
    pub count : accounted s ≡ accounted r + 1
    pub added : s.added_op_ids ≡ r.added_op_ids ++ added_of (get op.op_id r.merged) op
    pub duplicates :
        s.duplicate_op_ids ≡ r.duplicate_op_ids ++ duplicate_of (get op.op_id r.merged) op
    pub collisions : s.quarantined ≡ r.quarantined ++ collision_of (get op.op_id r.merged) op

  pub receive_total : (s : MergeReport) × (receive r op ≡ ok s) × Received s
  receive_total = elim (Option-cases (get op.op_id r.merged)) [
    | inl fresh ↦ (
      _,
      receive_new fresh,
      record {
        lookups = λ id. ground (arith, fresh, get-put op.op_id id op r.merged, eq_iff op.op_id id);
        count = omega (arith, length-append r.added_op_ids (op.op_id ∷ []));
        added = rw fresh refl;
        duplicates = rw fresh (sym (append_nil r.duplicate_op_ids));
        collisions = rw fresh (sym (append_nil r.quarantined));
      },
    )
    | inr (x, there) ↦ elim (Bool-cases (op_eq x op)) [
      | inl same ↦ (
        _,
        receive_same x there same,
        record {
          lookups = λ id. ground (arith, there, eq_iff op.op_id id);
          count = omega (arith, length-append r.duplicate_op_ids (op.op_id ∷ []));
          added = rw there (sym (append_nil r.added_op_ids));
          duplicates = rw (there, same) refl;
          collisions = rw (there, same) (sym (append_nil r.quarantined));
        },
      )
      | inr other ↦ (
        _,
        receive_other x there other,
        record {
          lookups = λ id. ground (arith, there, eq_iff op.op_id id);
          count = omega (arith, length-append r.quarantined (different_payload x op ∷ []));
          added = rw there (sym (append_nil r.added_op_ids));
          duplicates = rw (there, other) (sym (append_nil r.duplicate_op_ids));
          collisions = rw (there, other) refl;
        },
      )
    ]
  ]

-- The log holds under the identifiers of the operations what the first log holds.
abbrev pub Agrees : OpLog → OpLog → List Op → Type 0
Agrees log a ops = All (λ op. get op.op_id log ≡ get op.op_id a) ops

-- A round leaves the identifiers of the others alone.
pub receive-Agrees :
    (a : OpLog) (r s : MergeReport) (op : Op) (ops : List Op)
    → Received r op s
    → contains op.op_id (ids ops) ≡ false
    → Agrees r.merged a ops
    → Agrees s.merged a ops
unfolding contains
receive-Agrees a r s op [] round apart same = tt
receive-Agrees a r s op (x ∷ ops) round apart same = (
  ground (
    arith,
    round.lookups x.op_id,
    apart,
    same.0,
    eq_iff x.op_id op.op_id,
    eq_iff op.op_id x.op_id,
  ),
  receive-Agrees a r s op ops round (ground (arith, apart)) same.1,
)

-- One round and what follows it, for one of the lists.
pub append_round :
    {A : Type 0} (start rest : List A) {middle end first first' : List A}
    → middle ≡ start ++ first
    → first ≡ first'
    → end ≡ middle ++ rest
    → end ≡ start ++ (first' ++ rest)
append_round start rest {first' = first'} one same more =
    more ∙ ap (λ l. l ++ rest) (one ∙ ap (λ l. start ++ l) same) ∙ append_assoc start first' rest

pub or_else-none : {V : Type 0} (x : Option V) → x ≡ or_else x none
or_else-none none = refl
or_else-none (some x) = refl

-- A copy of the first log agrees with it.
pub agree :
    (a copied : OpLog)
    → ((id : String) → get id copied ≡ get id a)
    → (ops : List Op) → Agrees copied a ops
agree a copied same [] = tt
agree a copied same (op ∷ ops) = (same op.op_id, agree a copied same ops)
