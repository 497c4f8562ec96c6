-- ===== src/Replica/Cover.antt =====
-- The cursors that a replica has received, before and after an update of its progress.
use statefuse.Base.{
  ℕ, ◌≡◌, ◌≢◌, refl, ◌∙◌, Bool, false, ◌&&◌, ◌||◌, ◌≤◌, ◌<◌, max, List, [], ◌∷◌, ◌++◌, inl, inr,
  arith, ltb, leb, any, All, All-append, Bool-cases, eq_iff, any-append,
}
use statefuse.Base.{◌==◌ as nat_eq}
use statefuse.Base.Int.{pos}
use statefuse.Base.Order.{nat_key, pair_key}
use statefuse.Base.Sorted.{sorted}
use statefuse.Base.Elements.{
  any-sorted, All-sorted, Climbs, IsClimbing, sorted-IsClimbing, sorted_climbing,
}
use statefuse.Result.{ok}
use statefuse.Replica.{
  Range, ReplicaProgress, post_init, coalesce_from, coalesce, absorb, advance_by,
  advance_replica_progress,
}

-- Has the cursor `x` been received?
abbrev pub within : ℕ → Range → Bool
within x (start, end) = leb start x && ltb x end

abbrev pub covered : ReplicaProgress → ℕ → Bool
covered p x = ltb x p.cursor || any (within x) p.pending_ranges

abbrev Positive : List Range → Type 0
Positive = All (λ r. r.0 < r.1)

-- Each range begins where the one before it does, or later.
abbrev Starts : ℕ → List Range → Type 0
Starts s [] = Unit
Starts s ((start, end) ∷ l) = (s ≤ start) × Starts start l

-- The ranges are not empty, and there is a gap in front of each.
abbrev pub Gapped : ℕ → List Range → Type 0
Gapped c [] = Unit
Gapped c ((start, end) ∷ l) = (c < start) × (start < end) × Gapped end l

abbrev Apart : List Range → Type 0
Apart [] = Unit
Apart ((start, end) ∷ l) = (start < end) × Gapped end l

-- In a normal progress no range touches the cursor or another range.
pub record IsNormal (p : ReplicaProgress) : Type 0 where
  pub named : p.peer_replica_id ≢ ""
  pub gapped : Gapped p.cursor p.pending_ranges

module _ (x : ℕ) where
  coalesce_from-covers :
      (s e : ℕ) (l : List Range)
      → s < e
      → Starts s l
      → Positive l
      → any (within x) (coalesce_from s e l) ≡ within x (s, e) || any (within x) l
  unfolding coalesce_from
  coalesce_from-covers s e [] h a b = refl
  coalesce_from-covers s e ((start, end) ∷ l) h a b = ground (
    arith,
    coalesce_from-covers s (max e end) l (omega arith) (weaken s start l a.0 a.1) b.1,
    coalesce_from-covers start end l b.0 a.1 b.1,
  )
    where
      weaken : (i j : ℕ) (k : List Range) → i ≤ j → Starts j k → Starts i k
      weaken i j [] p q = tt
      weaken i j (r ∷ k) p q = (omega arith, q.1)

  absorb-covers :
      (c : ℕ) (l : List Range)
      → ltb x (absorb c l).0 || any (within x) (absorb c l).1 ≡ ltb x c || any (within x) l
  unfolding absorb
  absorb-covers c [] = refl
  absorb-covers c ((start, end) ∷ l) =
      ground (arith, absorb-covers (max c end) l, absorb-covers c l)

Climbs-Starts : (s e : ℕ) (l : List Range) → Climbs (s, e) l → Starts s l
Climbs-Starts s e [] h = tt
Climbs-Starts s e ((start, end) ∷ l) h = (ground (arith, h.0), Climbs-Starts start end l h.1)

coalesce-covers :
    (x : ℕ) (l : List Range)
    → IsClimbing l
    → Positive l
    → any (within x) (coalesce l) ≡ any (within x) l
unfolding coalesce
coalesce-covers x [] h p = refl
coalesce-covers x ((start, end) ∷ l) h p =
    coalesce_from-covers x start end l p.0 (Climbs-Starts start end l h) p.1

coalesce_from-Gapped :
    (c s e : ℕ) (l : List Range) → c < s → s < e → Positive l → Gapped c (coalesce_from s e l)
unfolding coalesce_from
coalesce_from-Gapped c s e [] h k p = (h, k, tt)
coalesce_from-Gapped c s e ((start, end) ∷ l) h k p = elim (Bool-cases (leb start e)) [
  | inl touch ↦ rw touch (coalesce_from-Gapped c s (max e end) l h (omega arith) p.1)
  | inr gap ↦ rw gap (h, k, coalesce_from-Gapped e start end l (ground arith) p.0 p.1)
]

coalesce_from-Apart : (s e : ℕ) (l : List Range) → s < e → Positive l → Apart (coalesce_from s e l)
unfolding coalesce_from
coalesce_from-Apart s e [] k p = (k, tt)
coalesce_from-Apart s e ((start, end) ∷ l) k p = elim (Bool-cases (leb start e)) [
  | inl touch ↦ rw touch (coalesce_from-Apart s (max e end) l (omega arith) p.1)
  | inr gap ↦ rw gap (k, coalesce_from-Gapped e start end l (ground arith) p.0 p.1)
]

coalesce-Apart : (l : List Range) → Positive l → Apart (coalesce l)
unfolding coalesce
coalesce-Apart [] p = tt
coalesce-Apart ((start, end) ∷ l) p = coalesce_from-Apart start end l p.0 p.1

absorb-Gapped_self : (c d : ℕ) (l : List Range) → Gapped d l → c ≤ d → absorb c l ≡ (c, l)
unfolding absorb
absorb-Gapped_self c d [] g h = refl
absorb-Gapped_self c d ((start, end) ∷ l) g h = ground (arith, absorb-Gapped_self c end l g.2)

Gapped-Apart : (c : ℕ) (l : List Range) → Gapped c l → Apart l
Gapped-Apart c [] g = tt
Gapped-Apart c ((start, end) ∷ l) g = (g.1, g.2)

absorb-Gapped : (c : ℕ) (l : List Range) → Apart l → Gapped (absorb c l).0 (absorb c l).1
unfolding absorb
absorb-Gapped c [] a = tt
absorb-Gapped c ((start, end) ∷ l) a = elim (Bool-cases (leb start c)) [
  | inl touch ↦ rw touch (absorb-Gapped (max c end) l (Gapped-Apart end l a.1))
  | inr gap ↦ ground (arith, gap, absorb-Gapped_self c end l a.1)
]

Gapped-Positive : (c : ℕ) (l : List Range) → Gapped c l → Positive l
Gapped-Positive c [] g = tt
Gapped-Positive c ((start, end) ∷ l) g = (g.1, Gapped-Positive end l g.2)

no_empty : (l : List Range) → Positive l → any (λ r. leb r.1 r.0) l ≡ false
no_empty [] p = refl
no_empty (r ∷ l) p = ground (arith, no_empty l p.1)

Gapped-Climbs : (s e : ℕ) (l : List Range) → s < e → Gapped e l → Climbs (s, e) l
Gapped-Climbs s e [] h g = tt
Gapped-Climbs s e ((start, end) ∷ l) h g = (ground (arith, g.0), Gapped-Climbs start end l g.1 g.2)

sorted-Gapped : (c : ℕ) (l : List Range) → Gapped c l → sorted l ≡ l
unfolding sorted
sorted-Gapped c [] g = refl
sorted-Gapped c ((start, end) ∷ l) g =
    unfold sorted in sorted_climbing (start, end) l (Gapped-Climbs start end l g.1 g.2)

-- The constructor accepts a normal progress and leaves it as it is.
pub post_init_normal : (p : ReplicaProgress) → IsNormal p → post_init p ≡ ok p
unfolding post_init
post_init_normal p v = ground (
  arith,
  v.named,
  eq_iff p.peer_replica_id "",
  no_empty p.pending_ranges (Gapped-Positive p.cursor p.pending_ranges v.gapped),
  sorted-Gapped p.cursor p.pending_ranges v.gapped,
)

advance_by-covers :
    (p : ReplicaProgress) (r : Range)
    → IsNormal p
    → r.0 ≤ r.1
    → (q : ReplicaProgress) × (advance_by p r ≡ ok q)
      × IsNormal q
      × ((x : ℕ) → covered q x ≡ covered p x || within x r)
      × (q.peer_replica_id ≡ p.peer_replica_id)
unfolding advance_by
advance_by-covers p (before, after) v h = elim (Bool-cases (nat_eq before after)) [
  | inl same ↦ (p, rw same refl, v, λ x. ground (arith, same), refl)
  | inr differ ↦
      let ranges = p.pending_ranges ++ (before, after) ∷ [] in
      let positive =
        All-append (λ r. r.0 < r.1) p.pending_ranges ((before, after) ∷ [])
          (Gapped-Positive p.cursor p.pending_ranges v.gapped) (ground (arith, differ), tt) in
      let sorted_positive = All-sorted (λ r. r.0 < r.1) ranges positive in
      let merged = coalesce (sorted ranges) in
      let q = record p {
        cursor = (absorb p.cursor merged).0;
        pending_ranges = (absorb p.cursor merged).1;
      } in
      let normal : IsNormal q = record {
        named = v.named;
        gapped = absorb-Gapped p.cursor merged (coalesce-Apart (sorted ranges) sorted_positive);
      } in
      (
        q,
        rw differ (post_init_normal q normal),
        normal,
        λ x. ground (
          arith,
          absorb-covers x p.cursor merged,
          coalesce-covers x (sorted ranges) (sorted-IsClimbing ranges) sorted_positive,
          any-sorted (within x) ranges,
          any-append (within x) p.pending_ranges ((before, after) ∷ []),
        ),
        refl,
      )
]

advance_accepted :
    (p : ReplicaProgress) (before after : ℕ)
    → before ≤ after
    → advance_replica_progress p (pos before) (pos after) ≡ advance_by p (before, after)
unfolding advance_replica_progress
advance_accepted p before after h = ground arith

-- An update of a normal progress by an ordered range of cursors returns a normal progress on the
-- same peer, which covers exactly the cursors that were covered and those of the range.
pub advance-covers :
    (p : ReplicaProgress) (before after : ℕ)
    → IsNormal p
    → before ≤ after
    → (q : ReplicaProgress) × (advance_replica_progress p (pos before) (pos after) ≡ ok q)
      × IsNormal q
      × ((x : ℕ) → covered q x ≡ covered p x || within x (before, after))
      × (q.peer_replica_id ≡ p.peer_replica_id)
advance-covers p before after v h =
    let (q, e, normal, covers, peer) = advance_by-covers p (before, after) v h in
    (q, advance_accepted p before after h ∙ e, normal, covers, peer)
