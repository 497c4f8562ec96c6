-- ===== src/Materialize/Find.antt =====
-- `MemoryState.find_conflicts`: the conflicts of a state that match a query.
pub mod Resolved
pub mod Reported
use text.Mathlib.Text.{◌==◌}
use statefuse.Base.{
  String, Bool, true, false, ◌&&◌, Option, none, some, List, [], ◌∷◌, ◌++◌, if◌then◌else◌, all, any,
  is_some,
}
use statefuse.Base.Dict.{Dict, get}
use statefuse.Base.Order.{string_key, pair_key, option_key, ◌==◌ as key_eq}
use statefuse.Base.Sorted.{contains, sorted_by}
use statefuse.Json.{Json, arr, obj, from_fields, from_items, json_eq}
use statefuse.Model.Access.{Payload}
use statefuse.Model.ClaimKey.{ClaimKey, claim_key_key}
use statefuse.Model.Source.{Source}
use statefuse.Model.Evidence.{Evidence}
use statefuse.Model.Claim.{Claim}
use statefuse.Conflict.Identity.{ConflictSet, direct_type}
use statefuse.Materialize.History.{Lane}
use statefuse.Materialize.State.{MemoryState}

-- The keyword arguments.
pub record Query : Type 0 where
  pub conflict_id : Option String
  pub conflict_ref : Option String
  pub conflict_type : Option String
  pub conflict_class : Option String
  pub conflict_subclass : Option String
  pub detector_id : Option String
  pub claim_id : Option String
  pub source_id : Option String
  pub source_type : Option String
  pub key : Option ClaimKey
  pub namespace : Option String
  pub context : Option Payload
  pub status : Option String
  pub scope : Option String

-- `x is None or test(x)`
abbrev pub if_asked : {A : Type 0} → Option A → (A → Bool) → Bool
if_asked none test = true
if_asked (some x) test = test x

-- `all(context.get(name, value) == value for name, value in asked.items())`
abbrev pub fits : Payload → Payload → Bool
fits context asked =
    all (λ (p : String × Json). elim (get p.0 context) [ none ↦ true | some v ↦ json_eq v p.1 ])
      asked

-- A dictionary, as `isinstance(value, dict)` finds it.
abbrev pub dict_of : Option Json → Option Payload
dict_of (some (obj fields)) = some (from_fields fields)
dict_of _ = none

abbrev pub list_of : Option Json → Option (List Json)
list_of (some (arr items)) = some (from_items items)
list_of _ = none

abbrev pub pair_fits : Payload → Json → Bool
pair_fits asked pair = elim (dict_of (some pair)) [
  | none ↦ false
  | some fields ↦ elim (dict_of (get "context" fields)) [
    | none ↦ false
    | some context ↦ fits context asked
  ]
]

abbrev pub candidates_fit : ConflictSet → Payload → Bool
candidates_fit c asked = all (λ (x : Claim). fits x.context asked) c.candidates

unfoldable pub conflict_matches_context : ConflictSet → Payload → Bool
unfolding get json_eq
conflict_matches_context c asked =
    if c.conflict_type == direct_type
    then (elim (list_of (get "incompatible_pairs" c.witness)) [
      | none ↦ candidates_fit c asked
      | some pairs ↦ any (pair_fits asked) pairs
    ])
    else candidates_fit c asked

-- The sources of the evidence of a claim.
unfoldable pub sources_of : Dict String Evidence → List String → List String
unfolding get
sources_of by_id [] = []
sources_of by_id (id ∷ ids) =
    let rest = sources_of by_id ids in
    elim (get id by_id) [
      | none ↦ rest
      | some e ↦ elim e.source_id [ none ↦ rest | some source ↦ source ∷ rest ]
    ]

unfoldable pub candidate_source_ids : Dict String Evidence → List Claim → List String
unfolding sources_of
candidate_source_ids by_id [] = []
candidate_source_ids by_id (c ∷ l) = sources_of by_id c.evidence_ids ++ candidate_source_ids by_id l

abbrev pub has_source_type : Dict String Source → String → String → Bool
has_source_type by_id type id = elim (get id by_id) [
  | none ↦ false
  | some s ↦ s.source_type == type
]

abbrev pub asks_context : ConflictSet → Option Payload → Bool
asks_context c none = true
asks_context c (some []) = true
asks_context c (some (p ∷ asked)) = conflict_matches_context c (p ∷ asked)

-- The lane of the scope, or else that of no scope.
unfoldable pub lane_for : MemoryState → Option String → ConflictSet → Lane
unfolding get
lane_for s none c = (c.conflict_ref, none)
lane_for s (some scope) c =
    if is_some (get (c.conflict_ref, some scope) s.lifecycle.statuses)
    then (c.conflict_ref, some scope)
    else (c.conflict_ref, none)

abbrev pub status_in : MemoryState → Lane → String
status_in s lane = elim (get lane s.lifecycle.statuses) [ none ↦ "open" | some status ↦ status ]

-- What a conflict must pass, in the order of the tests.
unfoldable pub is_selected : MemoryState → Query → ConflictSet → Bool
unfolding contains conflict_matches_context candidate_source_ids
is_selected s q c =
    let sources = candidate_source_ids s.evidence_by_id c.candidates in
    if_asked q.conflict_id (λ x. c.conflict_id == x)
    && if_asked q.conflict_ref (λ x. c.conflict_ref == x)
    && if_asked q.conflict_type (λ x. c.conflict_type == x)
    && if_asked q.conflict_class (λ x. c.conflict_class == x)
    && if_asked q.conflict_subclass (λ x. c.conflict_subclass == x)
    && if_asked q.detector_id (λ x. c.detector_id == x)
    && if_asked q.claim_id (λ x. any (λ (d : Claim). d.claim_id == x) c.candidates)
    && if_asked q.key (λ x. contains x c.keys)
    && if_asked q.namespace (λ x. any (λ (k : ClaimKey). k.namespace == x) c.keys)
    && if_asked q.source_id (λ x. contains x sources)
    && if_asked q.source_type (λ x. any (has_source_type s.sources_by_id x) sources)
    && asks_context c q.context

-- The last test is on the status.
unfoldable pub matches : MemoryState → Query → ConflictSet → Bool
unfolding is_selected lane_for
matches s q c =
    is_selected s q c && if_asked q.status (λ x. status_in s (lane_for s q.scope c) == x)

unfoldable pub matching : MemoryState → Query → List ConflictSet → List ConflictSet
unfolding matches
matching s q [] = []
matching s q (c ∷ l) = let rest = matching s q l in if matches s q c then c ∷ rest else rest

unfoldable pub find_conflicts : MemoryState → Query → List ConflictSet
unfolding matching sorted_by
find_conflicts s q = sorted_by (λ c. c.conflict_id) (matching s q s.conflicts)
