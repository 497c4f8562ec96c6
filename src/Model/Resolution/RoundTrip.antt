-- ===== src/Model/Resolution/RoundTrip.antt =====
-- The constructor of a resolution is idempotent, and its payload is read back as it was.
use statefuse.Base.{String, ◌≡◌, refl, ◌∙◌, ap, subst, false, List, [], ◌∷◌, arith, eq_iff}
use statefuse.Base.Order.{string_key}
use statefuse.Base.Sorted.{
  sorted, contains-sorted, IsAscending, IsDistinct, sorted-IsAscending, IsAscending-eq,
  IsAscending-IsDistinct,
}
use statefuse.Json.{str, as_strings-strings, from_fields-to_fields}
use statefuse.Result.{ok, ◌>>◌, >>-eq-ok, >>-ok, ok-injective}
use statefuse.Host.{Host}
use statefuse.Model.Resolution.{
  ResolutionRecord, has_duplicates, check_groups, check_fields, normalize, post_init, to_dict,
  from_dict,
}

distinct : (l : List String) → has_duplicates l ≡ false → IsDistinct l
unfolding has_duplicates
distinct [] h = tt
distinct (x ∷ l) h = (ground arith, distinct l (ground arith))

no_duplicates : (l : List String) → IsDistinct l → has_duplicates l ≡ false
unfolding has_duplicates
no_duplicates [] h = refl
no_duplicates (x ∷ l) h = ground (arith, no_duplicates l h.1)

module _ (l : List String) (once : has_duplicates l ≡ false) where
  sorted_ascends : IsAscending (sorted l)
  sorted_ascends = sorted-IsAscending l (distinct l once)

  -- Sorted identifiers without duplicates have none, and sorting them again changes nothing.
  sorted_once : has_duplicates (sorted l) ≡ false
  sorted_once = no_duplicates (sorted l) (IsAscending-IsDistinct (sorted l) sorted_ascends)

  sorted_again : sorted (sorted l) ≡ sorted l
  sorted_again =
      IsAscending-eq (sorted (sorted l)) (sorted l)
        (sorted-IsAscending (sorted l) (distinct (sorted l) sorted_once)) sorted_ascends
        λ k. contains-sorted k (sorted l)

groups_distinct :
    (r : ResolutionRecord)
    → check_groups r ≡ ok tt
    → (has_duplicates r.selected_claim_ids ≡ false)
      × (has_duplicates r.rejected_claim_ids ≡ false)
      × (has_duplicates r.retained_claim_ids ≡ false)
unfolding check_groups
groups_distinct r h = ground arith

module _ (r : ResolutionRecord) (groups : check_groups r ≡ ok tt) where
  normalize_again : normalize (normalize r) ≡ normalize r
  unfolding normalize
  normalize_again =
      let (selected, rejected, retained) = groups_distinct r groups in
      rw (
        sorted_again r.selected_claim_ids selected,
        sorted_again r.rejected_claim_ids rejected,
        sorted_again r.retained_claim_ids retained,
      )

  groups_again : check_groups (normalize r) ≡ ok tt
  unfolding check_groups normalize
  groups_again =
      let (selected, rejected, retained) = groups_distinct r groups in
      rw (
        sorted_once r.selected_claim_ids selected,
        sorted_once r.rejected_claim_ids rejected,
        sorted_once r.retained_claim_ids retained,
      )

-- What the constructor of a resolution returns, it accepts and leaves as it is.
pub post_init_again :
    (h : Host) (given r : ResolutionRecord) → post_init h given ≡ ok r → post_init h r ≡ ok r
unfolding post_init
post_init_again h given r e =
    let n = normalize given in
    let (groups, rest) = >>-eq-ok (check_groups given) (check_fields h n >> ok n) e in
    let (fields, same) = >>-eq-ok (check_fields h n) (ok n) rest in
    subst (λ t. post_init h t ≡ ok t) (ok-injective same)
      (>>-ok (groups_again given groups)
        ∙ ap (λ t. check_fields h t >> ok t) (normalize_again given groups)
        ∙ >>-ok fields)

-- A resolution that its constructor returned is read back from its payload as it was, if `str`
-- leaves texts alone.
pub from_dict-to_dict_resolution :
    (h : Host) (given r : ResolutionRecord)
    → ((s : String) → h.to_str (str s) ≡ s)
    → post_init h given ≡ ok r
    → from_dict h (to_dict r) ≡ ok r
unfolding from_dict to_dict
from_dict-to_dict_resolution h given r same e = ground (
  arith,
  post_init_again h given r e,
  same r.outcome,
  same "select",
  eq_iff r.outcome "select",
  as_strings-strings r.selected_claim_ids,
  as_strings-strings r.rejected_claim_ids,
  as_strings-strings r.retained_claim_ids,
  as_strings-strings r.evidence_ids,
  from_fields-to_fields r.metadata,
)
