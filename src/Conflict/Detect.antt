-- ===== src/Conflict/Detect.antt =====
-- Running the detectors: the direct scan and those of the user, whose findings are checked.
pub mod Checked
use text.Mathlib.Text.{◌==◌}
use statefuse.Base.{
  String, ◌≡◌, Bool, true, false, not, ◌&&◌, ◌||◌, Option, none, some, List, [], ◌∷◌, ◌++◌,
  if◌then◌else◌, all,
}
use statefuse.Base.Dict.{Dict, get, put}
use statefuse.Base.Order.{string_key, ◌==◌ as key_eq}
use statefuse.Base.Sorted.{in_order}
use statefuse.Json.{Json, arr, object, json_eq, to_items}
use statefuse.Result.{Result, ok, raise, value_error, collision, ◌>>=◌}
use statefuse.Host.{Host}
use statefuse.Model.ClaimKey.{ClaimKey, claim_key_key}
use statefuse.Model.Claim
use statefuse.Model.Claim.{Claim}
use statefuse.Model.Decision.{Decision}
use statefuse.Conflict.{PredicateRegistry}
use statefuse.Conflict.Identity.{
  ConflictSet, Kind, derive_conflict_ref, derive_conflict_id, claim_ids_of,
}
use statefuse.Conflict.Classify.{Records}
use statefuse.Conflict.Direct.{direct_conflicts}

pub record DetectionContext : Type 0 where
  pub active_claims_by_key : Dict ClaimKey (List Claim)
  pub claims_by_id : Dict String Claim
  pub records : Records
  pub active_decisions : List Decision
  pub predicate_registry : PredicateRegistry

-- A detector of the user may raise.
abbrev pub Detector : Type 0
Detector = DetectionContext → Result (List ConflictSet)

-- `left == right` for claims, by what `to_dict` writes of their fields
unfoldable pub claim_eq : Claim → Claim → Bool
claim_eq left right = json_eq (object (Claim.to_dict left)) (object (Claim.to_dict right))

unfoldable pub claims_eq : List Claim → List Claim → Bool
unfolding claim_eq
claims_eq [] [] = true
claims_eq (x ∷ xs) (y ∷ ys) = claim_eq x y && claims_eq xs ys
claims_eq _ _ = false

unfoldable pub keys_eq : List ClaimKey → List ClaimKey → Bool
keys_eq [] [] = true
keys_eq (x ∷ xs) (y ∷ ys) = key_eq x y && keys_eq xs ys
keys_eq _ _ = false

-- `left == right` for conflicts: field by field
unfoldable pub conflict_eq : ConflictSet → ConflictSet → Bool
unfolding claims_eq keys_eq
conflict_eq a b =
    (a.conflict_id == b.conflict_id)
    && key_eq a.key b.key
    && claims_eq a.candidates b.candidates
    && json_eq (arr (to_items a.distinct_values)) (arr (to_items b.distinct_values))
    && (a.reason == b.reason)
    && (a.conflict_ref == b.conflict_ref)
    && (a.conflict_type == b.conflict_type)
    && keys_eq a.keys b.keys
    && (a.conflict_class == b.conflict_class)
    && (a.conflict_subclass == b.conflict_subclass)
    && (a.detector_id == b.detector_id)
    && json_eq (object a.annotations) (object b.annotations)
    && json_eq (object a.witness) (object b.witness)

-- An active claim, as the context has it.
abbrev pub is_active : DetectionContext → Claim → Bool
is_active context c = elim (get c.claim_id context.claims_by_id) [
  | none ↦ false
  | some active ↦ claim_eq active c
]

abbrev pub kind_of : ConflictSet → Kind
kind_of c = record { conflict_type = c.conflict_type; keys = c.keys; detector_id = c.detector_id }

-- The identities are those that `make_conflict` derives.
unfoldable pub is_canonical : Host → ConflictSet → Bool
unfolding derive_conflict_ref derive_conflict_id
is_canonical h c =
    (c.conflict_ref == derive_conflict_ref h c.key (kind_of c))
    && (c.conflict_id == derive_conflict_id h c.key (claim_ids_of c.candidates) (kind_of c))

-- The dictionaries `by_id` and `refs` of the loop.
pub record Findings : Type 0 where
  pub by_id : Dict String ConflictSet
  pub refs : Dict String String

-- Another conflict has the reference.
abbrev pub taken : Option String → String → Bool
taken none id = false
taken (some prior) id = not (prior == id)

-- The end of the round, where the conflict is new.
unfoldable pub file_new : Findings → ConflictSet → Result Findings
file_new f c =
    if taken (get c.conflict_ref f.refs) c.conflict_id
    then raise (collision "conflict_ref" c.conflict_ref)
    else ok (record {
      by_id = put c.conflict_id c f.by_id;
      refs = put c.conflict_ref c.conflict_id f.refs;
    })

-- A round of the loop over the findings.
unfoldable pub file_conflict : Host → DetectionContext → Findings → ConflictSet → Result Findings
unfolding is_canonical conflict_eq file_new
file_conflict h context f c =
    if not (all (is_active context) c.candidates)
    then raise (value_error "Conflict detector referenced inactive, unknown, or modified claims")
    else if not (is_canonical h c)
    then raise
        (value_error "Conflict detectors must use canonical identities; call make_conflict().")
    else (elim (get c.conflict_id f.by_id) [
      | some existing ↦
          if conflict_eq existing c then ok f else raise (collision "conflict_id" c.conflict_id)
      | none ↦ file_new f c
    ])

unfoldable pub file_all : Host → DetectionContext → Findings → List ConflictSet → Result Findings
unfolding file_conflict
file_all h context f [] = ok f
file_all h context f (c ∷ conflicts) = do
  next ← file_conflict h context f c
  file_all h context next conflicts

unfoldable pub run_all : DetectionContext → List Detector → Result (List ConflictSet)
run_all context [] = ok []
run_all context (d ∷ detectors) = do
  found ← d context
  rest ← run_all context detectors
  ok (found ++ rest)

unfoldable pub run_conflict_detectors :
    Host → DetectionContext → List Detector → Result (List ConflictSet)
unfolding direct_conflicts run_all file_all
run_conflict_detectors h context detectors = do
  direct ←
      direct_conflicts h context.predicate_registry context.records context.active_claims_by_key
  found ← run_all context detectors
  filed ← file_all h context (record { by_id = []; refs = [] }) (direct ++ found)
  ok (in_order filed.by_id)
