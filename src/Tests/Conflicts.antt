-- ===== src/Tests/Conflicts.antt =====
-- The theorems on conflicts at two claims about one invoice.
use mathlib.Core.List.{Permᴰ}
use statefuse.Base.{
  String, ℕ, ◌≡◌, ◌≢◌, refl, sym, ◌∙◌, ap, Bool, true, false, ◌↔◌, ◌⊎◌, inl, inr, ◌≤◌, ◌<◌, Option,
  none, some, List, [], ◌∷◌, arith, In, eq_iff,
}
use statefuse.Base.Dict.{IsDict, get}
use statefuse.Base.Order.{string_key}
use statefuse.Json.{null, str, arr, object, cons, nil, strings}
use statefuse.Result.{ok}
use statefuse.Model.Access.{Payload}
use statefuse.Model.Claim.{Claim}
use statefuse.Conflict.{PredicateRegistry, is_multi_valued}
use statefuse.Conflict.Overlap.{
  validity_bounds_overlap, in_bounds, contexts_overlap, context_matches,
}
use statefuse.Conflict.Applies.{validity_bounds_overlap_iff, contexts_overlap_iff, Asks}
use statefuse.Conflict.Identity.{ConflictSet}
use statefuse.Conflict.Classify.{Records}
use statefuse.Conflict.Direct.{conflict_at}
use statefuse.Conflict.Detect.{DetectionContext, Detector, run_conflict_detectors}
use statefuse.Conflict.Detect.Checked.{IsSound, run_conflict_detectors-IsSound}
use statefuse.Conflict.Direct.Order.{conflict_at-Perm}
use statefuse.Conflict.Direct.Scan.{Clash, by_id}
use statefuse.Conflict.Direct.Complete.{conflict_at-candidates, conflict_at-none}
use statefuse.Tests.Data.{host, claim}

validity_bounds_overlap_iff_example :
    (validity_bounds_overlap (some 1, some 5) (some 3, none) ≡ true)
    ↔ ((t : ℕ) × (in_bounds (some 1, some 5) t ≡ true) × (in_bounds (some 3, none) t ≡ true))
validity_bounds_overlap_iff_example =
    validity_bounds_overlap_iff (some 1, some 5) (some 3, none) (omega arith, omega arith) tt

abbrev eu : Payload
eu = ("region", str "eu") ∷ []

abbrev eu_2024 : Payload
eu_2024 = ("region", str "eu") ∷ ("year", str "2024") ∷ []

eu-IsDict : IsDict eu
unfolding get
eu-IsDict = (refl, tt)

eu_2024-IsDict : IsDict eu_2024
unfolding statefuse.Base.Dict.get
eu_2024-IsDict = (refl, (refl, tt))

contexts_overlap_iff_example : (contexts_overlap eu eu_2024 ≡ true) ↔ (
    (q : Payload) × IsDict q
    × Asks eu eu_2024 q
    × (context_matches eu q ≡ true)
    × (context_matches eu_2024 q ≡ true))
contexts_overlap_iff_example = contexts_overlap_iff eu eu_2024 eu-IsDict eu_2024-IsDict

abbrev pub paid : Claim
paid = record claim { context = [] }

abbrev pub unpaid : Claim
unpaid = record paid { claim_id = "claim-2"; value = str "open" }

-- No two values of a status are taken for equal.
abbrev pub rules : PredicateRegistry
rules = record {
  rules =
      (
        "status",
        record {
          multi_valued = false;
          normalize = none;
          equal = some (λ a b. false);
          normalize_for_claim_ref = false;
        },
      )
      ∷ [];
  revision = 1;
}

abbrev no_records : Records
no_records = record { evidence_by_id = []; sources_by_id = []; derivations_by_id = [] }

abbrev both : List Claim
both = unpaid ∷ paid ∷ []

abbrev pub found : ConflictSet
found = record {
  conflict_id = "conflict:digest";
  key = paid.key;
  candidates = paid ∷ unpaid ∷ [];
  distinct_values = str "paid" ∷ str "open" ∷ [];
  reason =
      "functional predicate has incompatible active values in overlapping context and validity";
  conflict_ref = "conflict-ref:digest";
  conflict_type = "same_key_distinct_value";
  keys = paid.key ∷ [];
  conflict_class = "epistemic";
  conflict_subclass = "factual.value";
  detector_id = "direct";
  annotations = ("representation", str "categorical") ∷ ("dependency_depth", str "direct") ∷ [];
  witness =
      (
        "incompatible_pairs",
        arr (
            cons
              (object (
                ("claim_ids", arr (strings ("claim-1" ∷ "claim-2" ∷ [])))
                ∷ ("valid_from", null)
                ∷ ("valid_until", null)
                ∷ ("context", object [])
                ∷ []))
              nil),
      )
      ∷ [];
}

both_conflict : conflict_at host rules no_records paid.key both ≡ ok (some found)
unfolding conflict_at statefuse.Base.Sorted.sorted_by statefuse.Base.Order.str_leb
    statefuse.Base.Dict.get statefuse.Base.Sorted.sorted
both_conflict = refl

apart : (x y : Claim) → x ≡ unpaid → y ≡ paid → x.claim_id ≢ y.claim_id
apart x y p q e =
    let same : "claim-2" ≡ "claim-1" = sym (ap (λ c. c.claim_id) p) ∙ e ∙ ap (λ c. c.claim_id) q in
    let no : false ≡ true = (eq_iff "claim-2" "claim-1").1 same in absurd (cc)

distinct_ids : (x y : Claim) → In x both → In y both → x.claim_id ≡ y.claim_id → x ≡ y
distinct_ids x y (inl p) (inl q) e = p ∙ sym q
distinct_ids x y (inr (inl p)) (inr (inl q)) e = p ∙ sym q
distinct_ids x y (inl p) (inr (inl q)) e = absurd (apart x y p q e)
distinct_ids x y (inr (inl p)) (inl q) e = absurd (apart y x q p (sym e))
distinct_ids x y (inl p) (inr (inr k)) e = absurd k
distinct_ids x y (inr (inl p)) (inr (inr k)) e = absurd k
distinct_ids x y (inr (inr k)) _ e = absurd k

conflict_at-candidates_example : In paid found.candidates ↔ (
    (y : Claim) × (Clash host rules "status" (by_id both) paid y
      ⊎ Clash host rules "status" (by_id both) y paid))
conflict_at-candidates_example =
    conflict_at-candidates host rules no_records paid.key both found distinct_ids both_conflict paid

no_conflict : conflict_at host rules no_records paid.key (paid ∷ []) ≡ ok none
unfolding conflict_at statefuse.Base.Sorted.sorted_by
no_conflict = refl

single : is_multi_valued rules "status" ≡ false
unfolding statefuse.Conflict.rule_for statefuse.Base.Dict.get
single = refl

conflict_at-none_example : ¬ Clash host rules "status" (by_id (paid ∷ [])) paid paid
conflict_at-none_example =
    conflict_at-none host rules no_records paid.key (paid ∷ []) no_conflict single paid paid

abbrev context : DetectionContext
context = record {
  active_claims_by_key = (paid.key, both) ∷ [];
  claims_by_id = ("claim-1", paid) ∷ ("claim-2", unpaid) ∷ [];
  records = no_records;
  active_decisions = [];
  predicate_registry = rules;
}

abbrev detectors : List Detector
detectors = (λ c. ok (found ∷ [])) ∷ []

detected : run_conflict_detectors host context detectors ≡ ok (found ∷ [])
unfolding run_conflict_detectors statefuse.Base.Sorted.sorted get statefuse.Base.Order.str_leb
    statefuse.Json.json_eq statefuse.Model.Claim.to_dict statefuse.Base.Sorted.in_order
    statefuse.Base.Sorted.select
detected = refl

run_conflict_detectors-IsSound_example :
    ((c : ConflictSet) → In c (found ∷ []) → IsSound host context c)
    × ((c d : ConflictSet)
        → In c (found ∷ [])
        → In d (found ∷ [])
        → c.conflict_ref ≡ d.conflict_ref
        → c ≡ d)
run_conflict_detectors-IsSound_example =
    run_conflict_detectors-IsSound host context detectors (found ∷ []) detected

swapped : Permᴰ both (paid ∷ unpaid ∷ [])
swapped = Permᴰ.swap refl refl

conflict_at-Perm_example :
    conflict_at host rules no_records paid.key both
    ≡ conflict_at host rules no_records paid.key (paid ∷ unpaid ∷ [])
conflict_at-Perm_example =
    conflict_at-Perm host rules no_records paid.key both (paid ∷ unpaid ∷ []) swapped distinct_ids
