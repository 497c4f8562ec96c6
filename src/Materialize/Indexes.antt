-- ===== src/Materialize/Indexes.antt =====
-- The smaller steps of `materialize`: the order of decisions and retractions, and the indexes.
use text.Mathlib.Text.{◌==◌}
use statefuse.Base.{ℕ, String, Option, none, some, List, [], ◌∷◌, ◌++◌, map, if◌then◌else◌}
use statefuse.Base.Dict.{Dict, put}
use statefuse.Base.Order.{string_key, nat_key, pair_key, option_key}
use statefuse.Base.Sorted.{sorted, sorted_by}
use statefuse.Base.Groups.{append_to, add_to, sorted_items}
use statefuse.Result.{Result, ok, ◌>>=◌}
use statefuse.Host.{Host, parse_utc_iso}
use statefuse.Ops.{Op}
use statefuse.Model.ClaimKey.{ClaimKey, claim_key_key}
use statefuse.Model.Claim.{Claim}
use statefuse.Model.Evidence.{Evidence}
use statefuse.Model.Decision.{Decision}
use statefuse.Model.Resolution.{ResolutionRecord}
use statefuse.Conflict.Overlap.{validity_bounds}
use statefuse.Conflict.Identity.{ConflictSet}

-- `float("-inf")` stands before every float, as `none` does.
abbrev pub DecisionKey : Type 0
DecisionKey = Option ℕ × String

unfoldable pub decision_key : Host → Decision → Result DecisionKey
decision_key h d =
    if d.timestamp == ""
    then ok (none, d.decision_id)
    else (do t ← parse_utc_iso h d.timestamp; ok (some (h.timestamp t), d.decision_id))

unfoldable pub decision_keys : Host → List Decision → Result (List (DecisionKey × Decision))
unfolding decision_key
decision_keys h [] = ok []
decision_keys h (d ∷ l) = do key ← decision_key h d; rest ← decision_keys h l; ok ((key, d) ∷ rest)

unfoldable pub sort_decisions : Host → List Decision → Result (List Decision)
unfolding decision_keys sorted_by
sort_decisions h l = do keyed ← decision_keys h l; ok (map (λ x. x.1) (sorted_by (λ x. x.0) keyed))

-- `items.sort(key=lambda item: (item.timestamp, item.op_id))` for the items of every key
abbrev pub sort_retractions : Dict String (List Op) → Dict String (List Op)
sort_retractions [] = []
sort_retractions ((id, ops) ∷ d) =
    (id, sorted_by {K = String × String} (λ (op : Op). (op.timestamp, op.op_id)) ops)
    ∷ sort_retractions d

-- `{key: tuple(sorted(value)) for key, value in d.items()}`
abbrev pub sort_sets : Dict String (List String) → Dict String (List String)
sort_sets [] = []
sort_sets ((key, ids) ∷ d) = (key, sorted ids) ∷ sort_sets d

-- `for key in keys: result[key].add(id)`
unfoldable pub add_under :
    List String → String → Dict String (List String) → Dict String (List String)
unfolding add_to
add_under [] id d = d
add_under (key ∷ keys) id d = add_under keys id (add_to key id d)

abbrev pub opt_list : Option String → List String
opt_list none = []
opt_list (some s) = s ∷ []

module _ {A : Type 0} (names : A → List String) (id_of : A → String) where
  unfoldable pub index_of : Dict String (List String) → List A → Dict String (List String)
  unfolding add_under
  index_of d [] = d
  index_of d (x ∷ l) = index_of (add_under (names x) (id_of x) d) l

  -- `{key: tuple(sorted(value)) for key, value in sorted(result.items())}`
  unfoldable pub sorted_index : List A → Dict String (List String)
  unfolding index_of sorted_items sorted
  sorted_index l = sorted_items sorted (index_of [] l)

unfoldable pub claim_ids_by_evidence_id : List Claim → Dict String (List String)
unfolding sorted_index
claim_ids_by_evidence_id = sorted_index (λ c. c.evidence_ids) (λ c. c.claim_id)

unfoldable pub claim_ids_by_derivation_id : List Claim → Dict String (List String)
unfolding sorted_index
claim_ids_by_derivation_id = sorted_index (λ c. opt_list c.derivation_id) (λ c. c.claim_id)

unfoldable pub evidence_ids_by_source_id : List Evidence → Dict String (List String)
unfolding sorted_index
evidence_ids_by_source_id = sorted_index (λ e. opt_list e.source_id) (λ e. e.evidence_id)

unfoldable pub resolution_ids_by_claim_id : List ResolutionRecord → Dict String (List String)
unfolding sorted_index
resolution_ids_by_claim_id =
    sorted_index (λ r. r.selected_claim_ids ++ r.rejected_claim_ids ++ r.retained_claim_ids)
      (λ r. r.resolution_id)

-- `{conflict.conflict_id: conflict for conflict in conflicts}`, and the same by another name
unfoldable pub conflicts_under :
    (ConflictSet → String) → Dict String ConflictSet → List ConflictSet → Dict String ConflictSet
unfolding put
conflicts_under name d [] = d
conflicts_under name d (c ∷ l) = conflicts_under name (put (name c) c d) l

unfoldable pub file_conflict_keys :
    List ClaimKey
    → ConflictSet
    → Dict ClaimKey (List ConflictSet)
    → Dict ClaimKey (List ConflictSet)
unfolding append_to
file_conflict_keys [] c d = d
file_conflict_keys (key ∷ keys) c d = file_conflict_keys keys c (append_to key c d)

unfoldable pub conflicts_raw :
    Dict ClaimKey (List ConflictSet) → List ConflictSet → Dict ClaimKey (List ConflictSet)
unfolding file_conflict_keys
conflicts_raw d [] = d
conflicts_raw d (c ∷ l) = conflicts_raw (file_conflict_keys c.keys c d) l

unfoldable pub conflicts_by_key : List ConflictSet → Dict ClaimKey (List ConflictSet)
unfolding conflicts_raw sorted_items sorted_by
conflicts_by_key l = sorted_items (sorted_by (λ c. c.conflict_id)) (conflicts_raw [] l)

-- What `build_direct_conflict_index` reads of each claim: the ends of its interval, which may raise.
unfoldable pub read_bounds : Host → List Claim → Result (Unit {0})
unfolding validity_bounds
read_bounds h [] = ok tt
read_bounds h (c ∷ l) = do _ ← validity_bounds h c.validity; read_bounds h l

-- The loop that builds the indexes of the active claims. An index is not kept here.
unfoldable pub read_indexes : Host → Dict ClaimKey (List Claim) → Result (Unit {0})
unfolding read_bounds
read_indexes h [] = ok tt
read_indexes h ((key, l) ∷ active) = do _ ← read_bounds h l; read_indexes h active

-- `{claim.claim_id: claim for claims in active.values() for claim in claims}`
unfoldable pub put_claims : List Claim → Dict String Claim → Dict String Claim
unfolding put
put_claims [] d = d
put_claims (c ∷ l) d = put_claims l (put c.claim_id c d)

unfoldable pub claims_of_keys : Dict String Claim → Dict ClaimKey (List Claim) → Dict String Claim
unfolding put_claims
claims_of_keys d [] = d
claims_of_keys d ((key, l) ∷ active) = claims_of_keys (put_claims l d) active
