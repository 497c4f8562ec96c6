-- ===== src/Conflict/Identity.antt =====
-- The identities of conflicts, and their construction.
use Prim.Native.String.{◌++◌ as str_append}
use text.Mathlib.Text.{◌==◌}
use statefuse.Base.{
  String, Bool, true, false, ◌&&◌, Option, none, some, List, [], ◌∷◌, ◌++◌, map, if◌then◌else◌, all,
  any,
}
use statefuse.Base.Dict.{put}
use statefuse.Base.Order.{Key, string_key, ◌==◌ as key_eq}
use statefuse.Base.Sorted.{sorted, sorted_by, contains}
use statefuse.Json.{Json, str, arr, object, strings, json_eq}
use statefuse.Result.{Result, ok, raise, value_error, raise_if, ◌>>=◌, ◌>>◌}
use statefuse.Host.{Host}
use statefuse.Model.Access.{Payload}
use statefuse.Model.ClaimKey
use statefuse.Model.ClaimKey.{ClaimKey, claim_key_key}
use statefuse.Model.Claim.{Claim}
use statefuse.Model.Resolution.{has_duplicates}

-- `set(l)` as a list, the first of equal elements kept
unfoldable pub unique {ℓ} : {A : Type ℓ} ⦃o : Key A⦄ → List A → List A
unfolding contains
unique [] = []
unique (x ∷ l) = let rest = unique l in if contains x rest then rest else x ∷ rest

abbrev pub direct_type : String
direct_type = "same_key_distinct_value"

-- What an identity is derived from besides the key.
pub record Kind : Type 0 where
  pub conflict_type : String
  pub keys : List ClaimKey
  pub detector_id : String

unfoldable pub is_legacy : ClaimKey → Kind → Bool
is_legacy key kind =
    (kind.conflict_type == direct_type)
    && (kind.detector_id == "direct")
    && all (λ k. key_eq k key) kind.keys

unfoldable pub derive_conflict_ref : Host → ClaimKey → Kind → String
unfolding is_legacy ClaimKey.to_dict put
derive_conflict_ref h key kind =
    let payload =
      ("conflict_type", str kind.conflict_type) ∷ ("key", object (ClaimKey.to_dict key)) ∷ [] in
    let named = put "detector_id" (str kind.detector_id) payload in
    str_append "conflict-ref:"
      (h.digest_json_value (object (if is_legacy key kind then payload else named)))

unfoldable pub derive_conflict_id : Host → ClaimKey → List String → Kind → String
unfolding is_legacy ClaimKey.to_dict derive_conflict_ref
derive_conflict_id h key claim_ids kind =
    let ids = ("claim_ids", arr (strings (sorted claim_ids))) ∷ [] in
    let legacy = ("key", object (ClaimKey.to_dict key)) ∷ ids in
    let named = ("conflict_ref", str (derive_conflict_ref h key kind)) ∷ ids in
    str_append "conflict:"
      (h.digest_json_value (object (if is_legacy key kind then legacy else named)))

pub record ConflictSet : Type 0 where
  pub conflict_id : String
  pub key : ClaimKey
  pub candidates : List Claim
  pub distinct_values : List Json
  pub reason : String
  pub conflict_ref : String
  pub conflict_type : String
  pub keys : List ClaimKey
  pub conflict_class : String
  pub conflict_subclass : String
  pub detector_id : String
  pub annotations : Payload
  pub witness : Payload

abbrev pub claim_ids_of : List Claim → List String
claim_ids_of = map (λ c. c.claim_id)

unfoldable pub post_init : Host → ConflictSet → Result ConflictSet
unfolding unique derive_conflict_ref has_duplicates
post_init h c = do
  let candidates = sorted_by (λ x. x.claim_id) c.candidates
  raise_if (has_duplicates (claim_ids_of candidates))
      (value_error "Conflict candidates must have unique claim IDs.")
  let keys = sorted (unique (c.key ∷ c.keys ++ map (λ x. x.key) candidates))
  raise_if
      (any (λ s. s == "")
        (c.conflict_id ∷ c.conflict_type ∷ c.conflict_class ∷ c.conflict_subclass ∷ c.detector_id
          ∷ []))
      (value_error "Conflict identifiers, type, class, and detector_id are required.")
  let derived =
      derive_conflict_ref h c.key
        (record { conflict_type = c.conflict_type; keys = keys; detector_id = c.detector_id })
  ok (record c {
    candidates = candidates;
    keys = keys;
    conflict_ref = if c.conflict_ref == "" then derived else c.conflict_ref;
  })

-- The keyword arguments of `make_conflict`.
pub record Request : Type 0 where
  pub candidates : List Claim
  pub conflict_type : String
  pub reason : String
  pub detector_id : String
  pub conflict_class : String
  pub conflict_subclass : String
  pub key : Option ClaimKey
  pub keys : List ClaimKey
  pub distinct_values : Option (List Json)
  pub annotations : Payload
  pub witness : Payload

-- The values of the claims, the first of equal ones.
unfoldable pub claimed_values : List Json → List Claim → List Json
claimed_values values [] = values
claimed_values values (c ∷ claims) =
    claimed_values
      (if any (λ v. json_eq c.value v) values then values else values ++ (c.value ∷ [])) claims

-- `key or related_keys[0]`, if there is one key or the anchor is given
unfoldable pub anchor_of : Option ClaimKey → List ClaimKey → Result ClaimKey
anchor_of (some key) related = ok key
anchor_of none (key ∷ []) = ok key
anchor_of none _ = raise (value_error "Multi-key conflicts require an explicit stable key anchor.")

unfoldable pub make_conflict : Host → Request → Result ConflictSet
unfolding unique claimed_values anchor_of derive_conflict_id derive_conflict_ref post_init
make_conflict h q = do
  let ordered = sorted_by (λ c. c.claim_id) q.candidates
  raise_if (elim ordered [ [] ↦ true | c ∷ l ↦ false ])
      (value_error "A conflict requires at least one candidate claim.")
  let related = sorted (unique (q.keys ++ map (λ c. c.key) ordered))
  anchor ← anchor_of q.key related
  let kind : Kind = record {
    conflict_type = q.conflict_type;
    keys = related;
    detector_id = q.detector_id;
  }
  post_init h (record {
    conflict_id = derive_conflict_id h anchor (claim_ids_of ordered) kind;
    key = anchor;
    candidates = ordered;
    distinct_values = elim q.distinct_values [
      | none ↦ claimed_values [] ordered
      | some values ↦ values
    ];
    reason = q.reason;
    conflict_ref = derive_conflict_ref h anchor kind;
    conflict_type = q.conflict_type;
    keys = related;
    conflict_class = q.conflict_class;
    conflict_subclass = q.conflict_subclass;
    detector_id = q.detector_id;
    annotations = q.annotations;
    witness = q.witness;
  })
