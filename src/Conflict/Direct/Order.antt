-- ===== src/Conflict/Direct/Order.antt =====
-- The scan does not depend on the order in which the active claims of a key are listed.
use mathlib.Core.List.{Permᴰ}
use statefuse.Base.{◌≡◌, List, ap}
use statefuse.Base.Order.{string_key}
use statefuse.Base.Permute.{TellsApart, sorted-Perm}
use statefuse.Host.{Host}
use statefuse.Model.Claim.{Claim}
use statefuse.Model.ClaimKey.{ClaimKey}
use statefuse.Conflict.{PredicateRegistry}
use statefuse.Conflict.Classify.{Records}
use statefuse.Conflict.Direct.{conflict_at, conflict_among}

-- The scan of a key returns the same, errors included, for two orders of the same active claims, if
-- their identifiers tell them apart.
pub conflict_at-Perm :
    (h : Host) (r : PredicateRegistry) (records : Records) (key : ClaimKey) (l m : List Claim)
    → Permᴰ l m
    → TellsApart (λ c. c.claim_id) l
    → conflict_at h r records key l ≡ conflict_at h r records key m
unfolding conflict_at
conflict_at-Perm h r records key l m p apart =
    ap (conflict_among h r records key) (sorted-Perm (λ c. c.claim_id) l m p apart)
