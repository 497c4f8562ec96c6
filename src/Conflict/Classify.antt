-- ===== src/Conflict/Classify.antt =====
-- What a conflict is filed under: its class, its annotations and whether its claims apply together.
use text.Mathlib.Text.{◌==◌}
use statefuse.Base.{
  String, ℕ, Bool, true, false, Option, none, some, List, [], ◌∷◌, ◌++◌, map, if◌then◌else◌, all,
  any, length, ltb, leb, max, min,
}
use statefuse.Base.Dict.{Dict, get, put}
use statefuse.Base.Order.{string_key, pair_key}
use statefuse.Base.Sorted.{sorted}
use statefuse.Json.{Json, boolean, int, float, str, arr, strings, json_eq}
use statefuse.Result.{Result, ok, ◌>>=◌}
use statefuse.Host.{Host, parse_utc_iso}
use statefuse.Model.Access.{Payload}
use statefuse.Model.Source.{Source}
use statefuse.Model.Evidence.{Evidence}
use statefuse.Model.Derivation.{Derivation}
use statefuse.Model.Claim.{Claim}
use statefuse.Conflict.Identity.{unique}

-- The `mapping` of `_taxonomy_for`
unfoldable pub kind_class : String → Option (String × String)
kind_class kind =
    if kind == "belief"
    then some ("epistemic", "source.belief")
    else if kind == "instruction"
    then some ("normative", "instruction")
    else if kind == "preference"
    then some ("normative", "preference")
    else if kind == "policy"
    then some ("normative", "policy.rule")
    else if kind == "goal"
    then some ("normative", "goal")
    else none

unfoldable pub classified : List Claim → List (String × String)
unfolding kind_class
classified [] = []
classified (c ∷ claims) =
    let rest = classified claims in elim (kind_class c.kind) [ none ↦ rest | some k ↦ k ∷ rest ]

unfoldable pub taxonomy_for : List Claim → String × String
unfolding classified unique
taxonomy_for claims = elim (unique (classified claims)) [
  | k ∷ [] ↦ k
  | found ↦ elim (unique (map (λ k. k.0) found)) [
    | c ∷ [] ↦ (c, "mixed")
    | _ ↦ ("epistemic", "factual.value")
  ]
]

-- The parts of a detection context that annotations read.
pub record Records : Type 0 where
  pub evidence_by_id : Dict String Evidence
  pub sources_by_id : Dict String Source
  pub derivations_by_id : Dict String Derivation

unfoldable pub source_type_of : Records → String → Option String
source_type_of r evidence_id = elim (get evidence_id r.evidence_by_id) [
  | none ↦ none
  | some e ↦ elim e.source_id [
    | none ↦ none
    | some source_id ↦ elim (get source_id r.sources_by_id) [
      | none ↦ none
      | some source ↦ some source.source_type
    ]
  ]
]

unfoldable pub source_types : Records → List String → List String
unfolding source_type_of
source_types r [] = []
source_types r (id ∷ ids) =
    let rest = source_types r ids in elim (source_type_of r id) [ none ↦ rest | some t ↦ t ∷ rest ]

unfoldable pub all_source_types : Records → List Claim → List String
unfolding source_types
all_source_types r [] = []
all_source_types r (c ∷ claims) = source_types r c.evidence_ids ++ all_source_types r claims

abbrev pub is_number : Json → Bool
is_number (int n) = true
is_number (float x) = true
is_number _ = false

abbrev pub is_label : Json → Bool
is_label (str s) = true
is_label (boolean b) = true
is_label _ = false

-- A claim that was derived from more than one claim.
abbrev pub is_multi_hop : Records → Claim → Bool
is_multi_hop r c = elim c.derivation_id [
  | none ↦ false
  | some id ↦ elim (get id r.derivations_by_id) [
    | none ↦ false
    | some d ↦ ltb 1 (length d.input_claim_ids)
  ]
]

unfoldable pub representation_of : List Claim → String
representation_of [] = "structured"
representation_of (c ∷ claims) =
    let all_claims = c ∷ claims in
    if all (λ x. is_number x.value) all_claims
    then "numeric"
    else if all (λ x. is_label x.value) all_claims
    then "categorical"
    else "structured"

unfoldable pub annotations_for : Records → List Claim → Payload
unfolding representation_of all_source_types unique
annotations_for r claims =
    let common =
      ("representation", str (representation_of claims))
      ∷ ("dependency_depth", str (if any (is_multi_hop r) claims then "multi_hop" else "direct"))
      ∷ [] in
    elim (sorted (unique (all_source_types r claims))) [
      | [] ↦ common
      | t ∷ types ↦ common ++ (("provenance", arr (strings (t ∷ types))) ∷ [])
    ]

-- The ends that are given, read as instants.
unfoldable pub instants : Host → List (Option String) → Result (List ℕ)
instants h [] = ok []
instants h (none ∷ l) = instants h l
instants h (some s ∷ l) = do t ← parse_utc_iso h s; ts ← instants h l; ok (t ∷ ts)

abbrev pub from_of : Claim → Option String
from_of c = elim c.validity [ none ↦ none | some v ↦ v.valid_from ]

abbrev pub until_of : Claim → Option String
until_of c = elim c.validity [ none ↦ none | some v ↦ v.valid_until ]

-- `setdefault`, `add` and the test of one field: the first value is kept, since the loop ends at
-- the first field that has another.
unfoldable pub differing_field : Dict String Json → Payload → Dict String Json × Bool
differing_field seen [] = (seen, false)
differing_field seen ((name, value) ∷ fields) = elim (get name seen) [
  | none ↦ differing_field (put name value seen) fields
  | some first ↦ if json_eq first value then differing_field seen fields else (seen, true)
]

unfoldable pub contexts_differ : Dict String Json → List Claim → Bool
unfolding differing_field
contexts_differ seen [] = false
contexts_differ seen (c ∷ claims) =
    let (next, differ) = differing_field seen c.context in
    let rest = contexts_differ next claims in if differ then true else rest

abbrev pub max_of : ℕ → List ℕ → ℕ
max_of n [] = n
max_of n (m ∷ l) = max_of (max n m) l

abbrev pub min_of : ℕ → List ℕ → ℕ
min_of n [] = n
min_of n (m ∷ l) = min_of (min n m) l

-- `starts and ends and max(starts) >= min(ends)`
unfoldable pub ends_before_last_start : List ℕ → List ℕ → Bool
ends_before_last_start [] ends = false
ends_before_last_start (s ∷ starts) [] = false
ends_before_last_start (s ∷ starts) (e ∷ ends) = leb (min_of e ends) (max_of s starts)

unfoldable pub has_aggregate_applicability : Host → List Claim → Result Bool
unfolding contexts_differ instants ends_before_last_start
has_aggregate_applicability h claims = if contexts_differ [] claims then ok true else (do
  starts ← instants h (map from_of claims)
  ends ← instants h (map until_of claims)
  ok (ends_before_last_start starts ends))
