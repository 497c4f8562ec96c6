-- ===== src/Model/ClaimKey.antt =====
-- `ClaimKey` of model.py.
use statefuse.Base.{true, ◌↔◌, ap, String, ◌≡◌, [], ◌∷◌, arith}
use statefuse.Base.Order.{
  Key, string_key, pair_key, pair_eq, pair_eq_iff, pair_leb, pair_total, pair_antisym, pair_trans,
}
use statefuse.Json.{str}
use statefuse.Result.{Result, ok, ◌>>=◌}
use statefuse.Host.{Host}
use statefuse.Model.Access.{Payload, item}

pub record ClaimKey : Type 0 where
  pub namespace : String
  pub subject : String
  pub predicate : String

unfoldable pub to_dict : ClaimKey → Payload
to_dict k =
    ("namespace", str k.namespace)
    ∷ ("subject", str k.subject)
    ∷ ("predicate", str k.predicate)
    ∷ []

unfoldable pub from_dict : Host → Payload → Result ClaimKey
unfolding item
from_dict h value = do
  namespace ← item value "namespace"
  subject ← item value "subject"
  predicate ← item value "predicate"
  ok (record {
    namespace = h.to_str namespace;
    subject = h.to_str subject;
    predicate = h.to_str predicate;
  })

-- What is read back is what was written, if `str` leaves texts alone.
pub from_dict-to_dict_claim_key :
    (h : Host) (k : ClaimKey)
    → ((s : String) → h.to_str (str s) ≡ s)
    → from_dict h (to_dict k) ≡ ok k
unfolding from_dict to_dict
from_dict-to_dict_claim_key h k same =
    ground (arith, same k.namespace, same k.subject, same k.predicate)

-- The order of the data class: by its fields, as tuples are.
abbrev pub as_tuple : ClaimKey → String × (String × String)
as_tuple k = (k.namespace, (k.subject, k.predicate))

abbrev pub of_tuple : String × (String × String) → ClaimKey
of_tuple (n, (s, p)) = record { namespace = n; subject = s; predicate = p }

pub key_eq_iff : (a b : ClaimKey) → (pair_eq (as_tuple a) (as_tuple b) ≡ true) ↔ (a ≡ b)
key_eq_iff a b = (
  λ h. ap of_tuple ((pair_eq_iff (as_tuple a) (as_tuple b)).0 h),
  λ e. (pair_eq_iff (as_tuple a) (as_tuple b)).1 (ap as_tuple e),
)

pub key_antisym :
    (a b : ClaimKey)
    → pair_leb (as_tuple a) (as_tuple b) ≡ true
    → pair_leb (as_tuple b) (as_tuple a) ≡ true
    → a ≡ b
key_antisym a b h k = ap of_tuple (pair_antisym (as_tuple a) (as_tuple b) h k)

instance abbrev pub claim_key_key : Key ClaimKey
claim_key_key = record {
  beq = λ a b. pair_eq (as_tuple a) (as_tuple b);
  leb = λ a b. pair_leb (as_tuple a) (as_tuple b);
  beq_iff = key_eq_iff;
  total = λ a b. pair_total (as_tuple a) (as_tuple b);
  antisym = key_antisym;
  trans = λ a b c. pair_trans (as_tuple a) (as_tuple b) (as_tuple c);
}
