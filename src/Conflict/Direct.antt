-- ===== src/Conflict/Direct.antt =====
-- The scan for direct conflicts: claims on one key with values that differ, in contexts and
-- intervals that overlap.
pub mod Scan
pub mod Complete
pub mod Order
use statefuse.Base.{
  String, ℕ, Bool, true, false, not, ◌&&◌, ◌||◌, Option, none, some, List, [], ◌∷◌, ◌++◌, map,
  if◌then◌else◌, any, length, ltb, leb,
}
use statefuse.Base.Dict.{Dict, get, put, update, keys}
use statefuse.Base.Order.{Key, string_key}
use statefuse.Base.Sorted.{sorted, sorted_by, contains}
use statefuse.Json.{Json, null, str, arr, object, opt_str, strings, to_items}
use statefuse.Result.{Result, ok, raise, ◌>>=◌}
use statefuse.Host.{Host, parse_utc_iso}
use statefuse.Model.Access.{Payload}
use statefuse.Model.ClaimKey.{ClaimKey, claim_key_key}
use statefuse.Model.Claim.{Claim}
use statefuse.Conflict.{PredicateRegistry, is_multi_valued, values_equal}
use statefuse.Conflict.Overlap.{contexts_overlap, validity_overlaps}
use statefuse.Conflict.Identity.{ConflictSet, Request, make_conflict, direct_type}
use statefuse.Conflict.Classify.{
  Records, taxonomy_for, annotations_for, has_aggregate_applicability, from_of, until_of,
}

module _ {ℓ} {A : Type ℓ} where
  abbrev pub paired : A → List A → List (A × A)
  paired x l = map (λ y. (x, y)) l

  -- `combinations(l, 2)`
  unfoldable pub combinations : List A → List (A × A)
  combinations [] = []
  combinations (x ∷ l) = paired x l ++ combinations l

  -- `[x for x in l if test(x)]`, where the test may raise
  unfoldable pub select_if : (A → Result Bool) → List A → Result (List A)
  select_if test [] = ok []
  select_if test (x ∷ l) = do
    kept ← test x
    rest ← select_if test l
    ok (if kept then x ∷ rest else rest)

-- The three tests of a pair; the intervals are read only after the first two.
unfoldable pub is_incompatible : Host → PredicateRegistry → String → Claim × Claim → Result Bool
unfolding values_equal contexts_overlap validity_overlaps
is_incompatible h r predicate (left, right) =
    if values_equal r predicate left.value right.value
    then ok false
    else if contexts_overlap left.context right.context
    then validity_overlaps h left.validity right.validity
    else ok false

unfoldable pub incompatible_pairs :
    Host → PredicateRegistry → String → List Claim → Result (List (Claim × Claim))
unfolding combinations select_if is_incompatible
incompatible_pairs h r predicate claims =
    select_if (is_incompatible h r predicate) (combinations claims)

-- `participant_ids`
unfoldable pub participants : List (Claim × Claim) → List String
participants [] = []
participants ((left, right) ∷ pairs) = left.claim_id ∷ right.claim_id ∷ participants pairs

-- `[claim for claim in claims if claim.claim_id in ids]`
unfoldable pub claims_among : List String → List Claim → List Claim
unfolding contains
claims_among ids [] = []
claims_among ids (c ∷ claims) =
    let rest = claims_among ids claims in if contains c.claim_id ids then c ∷ rest else rest

-- `_distinct_values_for_claims`
unfoldable pub distinct_values_for : PredicateRegistry → String → List Json → List Claim → List Json
unfolding values_equal
distinct_values_for r predicate values [] = values
distinct_values_for r predicate values (c ∷ claims) =
    distinct_values_for r predicate
      (if any (λ v. values_equal r predicate c.value v) values
        then values
        else values ++ (c.value ∷ []))
      claims

-- `max(starts, key=parse_utc_iso)`, the first of equal ones; `later` says when the new one wins
unfoldable pub best_end : Host → (ℕ → ℕ → Bool) → String → List String → Result String
best_end h later best [] = ok best
best_end h later best (s ∷ l) = do
  old ← parse_utc_iso h best
  new ← parse_utc_iso h s
  best_end h later (if later old new then s else best) l

abbrev pub given : List (Option String) → List String
given [] = []
given (none ∷ l) = given l
given (some s ∷ l) = s ∷ given l

unfoldable pub best_of : Host → (ℕ → ℕ → Bool) → List String → Result (Option String)
unfolding best_end
best_of h later [] = ok none
best_of h later (s ∷ []) = do _ ← parse_utc_iso h s; ok (some s)
best_of h later (s ∷ l) = do best ← best_end h later s l; ok (some best)

unfoldable pub overlap_witness : Host → Claim → Claim → Result Payload
unfolding best_of update
overlap_witness h left right = do
  valid_from ← best_of h (λ old new. ltb old new) (given (from_of left ∷ from_of right ∷ []))
  valid_until ← best_of h (λ old new. ltb new old) (given (until_of left ∷ until_of right ∷ []))
  ok (
      ("claim_ids", arr (strings (left.claim_id ∷ right.claim_id ∷ [])))
      ∷ ("valid_from", opt_str valid_from)
      ∷ ("valid_until", opt_str valid_until)
      ∷ ("context", object (update left.context right.context))
      ∷ [])

unfoldable pub witnesses : Host → List (Claim × Claim) → Result (List Json)
unfolding overlap_witness
witnesses h [] = ok []
witnesses h ((left, right) ∷ pairs) = do
  w ← overlap_witness h left right
  rest ← witnesses h pairs
  ok (object w ∷ rest)

-- `annotations["applicability"] = "aggregate"`
abbrev pub annotate : Bool → Payload → Payload
annotate aggregate annotations =
    if aggregate then put "applicability" (str "aggregate") annotations else annotations

-- The arguments of `make_conflict`.
unfoldable pub request_for :
    PredicateRegistry → Records → ClaimKey → List Claim → Bool → List Json → Request
unfolding taxonomy_for annotations_for distinct_values_for
request_for r records key candidates aggregate incompatible = record {
  candidates = candidates;
  conflict_type = direct_type;
  reason =
      "functional predicate has incompatible active values in overlapping context and validity";
  detector_id = "direct";
  conflict_class = (taxonomy_for candidates).0;
  conflict_subclass = (taxonomy_for candidates).1;
  key = some key;
  keys = key ∷ [];
  distinct_values = some (distinct_values_for r key.predicate [] candidates);
  annotations = annotate aggregate (annotations_for records candidates);
  witness = ("incompatible_pairs", arr (to_items incompatible)) ∷ [];
}

-- The conflict of one key, from its incompatible pairs.
unfoldable pub conflict_of :
    Host
    → PredicateRegistry
    → Records
    → ClaimKey
    → List Claim
    → List (Claim × Claim)
    → Result ConflictSet
unfolding claims_among participants has_aggregate_applicability make_conflict witnesses request_for
conflict_of h r records key claims pairs = do
  let candidates = claims_among (participants pairs) claims
  aggregate ← has_aggregate_applicability h candidates
  incompatible ← witnesses h pairs
  make_conflict h (request_for r records key candidates aggregate incompatible)

-- `if not incompatible_pairs: continue`
unfoldable pub conflict_from :
    Host
    → PredicateRegistry
    → Records
    → ClaimKey
    → List Claim
    → List (Claim × Claim)
    → Result (Option ConflictSet)
unfolding conflict_of
conflict_from h r records key claims [] = ok none
conflict_from h r records key claims (p ∷ pairs) = do
  c ← conflict_of h r records key claims (p ∷ pairs)
  ok (some c)

-- The body of the loop over the keys, for the claims in the order of their identifiers.
unfoldable pub conflict_among :
    Host → PredicateRegistry → Records → ClaimKey → List Claim → Result (Option ConflictSet)
unfolding incompatible_pairs conflict_from
conflict_among h r records key claims =
    if leb (length claims) 1 || is_multi_valued r key.predicate then ok none else (do
      pairs ← incompatible_pairs h r key.predicate claims
      conflict_from h r records key claims pairs)

-- The conflict of a key, if it has one.
unfoldable pub conflict_at :
    Host → PredicateRegistry → Records → ClaimKey → List Claim → Result (Option ConflictSet)
unfolding conflict_among
conflict_at h r records key active =
    conflict_among h r records key (sorted_by (λ c. c.claim_id) active)

unfoldable pub conflicts_at :
    Host
    → PredicateRegistry
    → Records
    → Dict ClaimKey (List Claim)
    → List ClaimKey
    → Result (List ConflictSet)
unfolding conflict_at
conflicts_at h r records active [] = ok []
conflicts_at h r records active (key ∷ ks) = do
  found ← (elim (get key active) [
    | none ↦ ok none
    | some claims ↦ conflict_at h r records key claims
  ])
  rest ← conflicts_at h r records active ks
  ok (elim found [ none ↦ rest | some c ↦ c ∷ rest ])

unfoldable pub direct_conflicts :
    Host → PredicateRegistry → Records → Dict ClaimKey (List Claim) → Result (List ConflictSet)
unfolding conflicts_at
direct_conflicts h r records active = conflicts_at h r records active (sorted (keys active))

-- `detect_conflicts`, which knows no other records
unfoldable pub detect_conflicts :
    Host → PredicateRegistry → Dict ClaimKey (List Claim) → Result (List ConflictSet)
unfolding direct_conflicts
detect_conflicts h r active =
    direct_conflicts h r
      (record { evidence_by_id = []; sources_by_id = []; derivations_by_id = [] }) active
