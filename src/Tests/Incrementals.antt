-- ===== src/Tests/Incrementals.antt =====
-- The theorems on the incremental materialisation, at concrete inputs.
use statefuse.Base.{
  String, ◌≡◌, refl, sym, ◌∙◌, ap, subst, true, false, ◌↔◌, none, some, List, [], ◌∷◌, ◌++◌, inl,
  inr, In,
}
use statefuse.Base.Dict.{get}
use statefuse.Base.Order.{string_key}
use statefuse.Base.Groups.{group}
use statefuse.Result.{ok}
use statefuse.Ops.{Op, Body, claim_added}
use statefuse.OpLog.{OpLog, iter_ops}
use statefuse.Model.ClaimKey.{claim_key_key}
use statefuse.Model.Claim.{Claim}
use statefuse.Materialize.Facts.{Facts}
use statefuse.Materialize.Facts.Log.{AddedBy}
use statefuse.Materialize.Lifecycle.{no_fold}
use statefuse.Materialize.State.{MemoryState, state_of, materialize}
use statefuse.Materialize.Incremental.{Working}
use statefuse.Materialize.Incremental.Rounds.{apply_ops}
use statefuse.Materialize.Incremental.Consistent.{IsConsistent}
use statefuse.Materialize.Incremental.Preserved.{apply_ops-IsConsistent}
use statefuse.Materialize.Incremental.Start.{none_affected, working_of}
use statefuse.Materialize.Incremental.Start.Consistent.{unscoped, working_of-IsConsistent}
use statefuse.Materialize.Incremental.Log.{OneClaim}
use statefuse.Materialize.Incremental.Full.{SameOps, apply_ops-materialize}
use statefuse.Tests.Data.{host, claim, three}
use statefuse.Tests.States.{rules, added, facts, split}

-- The claim is added a second time by another operation.
abbrev again : Op
again = record {
  op_id = "op-4";
  replica_id = "beta";
  timestamp = "2024-01-01T00:00:00Z";
  body = claim_added claim;
}

abbrev log : OpLog
log = ("op-1", added) ∷ []

abbrev ops : List Op
ops = three ∷ again ∷ []

abbrev full : OpLog
full = ("op-1", added) ∷ ("op-3", three) ∷ ("op-4", again) ∷ []

abbrev first_facts : Facts
first_facts = record facts { retractions_by_target = [] }

abbrev first : MemoryState
first = state_of rules first_facts split [] [] ([], []) ([], []) no_fold

abbrev all_facts : Facts
all_facts = record facts { retractions_by_target = ("claim-3", three ∷ []) ∷ [] }

abbrev whole : MemoryState
whole = state_of rules all_facts split [] [] ([], []) ([], []) no_fold

made_first : materialize host rules [] unscoped log ≡ ok first
unfolding materialize statefuse.Base.Sorted.in_order statefuse.Base.Sorted.select
    statefuse.Base.Sorted.sorted statefuse.Base.Order.str_leb get
    statefuse.Model.Claim.derive_claim_ref
made_first = refl

made_whole : materialize host rules [] unscoped full ≡ ok whole
unfolding materialize statefuse.Base.Sorted.in_order statefuse.Base.Sorted.select
    statefuse.Base.Sorted.sorted statefuse.Base.Order.str_leb get
    statefuse.Model.Claim.derive_claim_ref statefuse.Json.json_eq statefuse.Model.Claim.to_dict
made_whole = refl

abbrev end : Working
end = record (working_of first) {
  facts = record (working_of first).facts { retractions_by_target = ("claim-3", three ∷ []) ∷ [] };
  inactive = "claim-3" ∷ [];
  affected = record none_affected { claim_ids = "claim-3" ∷ [] };
}

ran : apply_ops host rules (working_of first) ops ≡ ok end
unfolding apply_ops working_of statefuse.Base.Sorted.in_order statefuse.Base.Sorted.select
    statefuse.Base.Sorted.sorted statefuse.Base.Order.str_leb get
    statefuse.Model.Claim.derive_claim_ref statefuse.Json.json_eq statefuse.Model.Claim.to_dict
    statefuse.Materialize.Active.inactive_claim_ids
ran = refl

same : SameOps (iter_ops full) (iter_ops log ++ ops)
unfolding statefuse.Base.Sorted.in_order statefuse.Base.Sorted.select statefuse.Base.Sorted.sorted
    statefuse.Base.Order.str_leb get
same op = (λ h. h, λ h. h)

abbrev added_claim : Body → Claim
added_claim (claim_added c) = c
added_claim _ = claim

only_claim : (a : Claim) → AddedBy a (iter_ops log ++ ops) → a ≡ claim
unfolding statefuse.Base.Sorted.in_order statefuse.Base.Sorted.select statefuse.Base.Sorted.sorted
    statefuse.Base.Order.str_leb get
only_claim a (op, there, adds) = go there
  where
    from : (x : Op) → added_claim x.body ≡ claim → op ≡ x → a ≡ claim
    from x here e = sym (ap added_claim adds) ∙ ap (λ y. added_claim y.body) e ∙ here

    go : In op (added ∷ three ∷ again ∷ []) → a ≡ claim
    go (inl e) = from added refl e
    go (inr (inl e)) = from three refl e
    go (inr (inr (inl e))) = from again refl e
    go (inr (inr (inr no_place))) = absurd no_place

one_claim : OneClaim (iter_ops log ++ ops)
one_claim a b p q e = only_claim a p ∙ sym (only_claim b q)

apply_ops-IsConsistent_example : IsConsistent end
apply_ops-IsConsistent_example =
    apply_ops-IsConsistent host rules (working_of first) ops
      (working_of-IsConsistent host rules [] log made_first) ran

apply_ops-materialize_example :
    In claim (group claim.key end.active) ↔ In claim (group claim.key whole.active_claims)
apply_ops-materialize_example =
    apply_ops-materialize host rules [] log full ops claim claim.key made_first ran made_whole same
      one_claim
