-- ===== src/Replica/Normal.antt =====
-- A normal progress is determined by what it covers, so the order and the repetition of updates do
-- not matter.
use statefuse.Base.{ℕ, ◌≡◌, refl, sym, ◌∙◌, ap, ap₂, false, ◌||◌, ◌≤◌, List, [], ◌∷◌, arith, any}
use statefuse.Result.{Result, ok, ◌>>=◌}
use statefuse.Base.Int.{pos}
use statefuse.Replica.{Range, ReplicaProgress, advance_replica_progress}
use statefuse.Replica.Cover.{within, covered, Gapped, IsNormal, advance-covers}

gap_uncovered : (c x : ℕ) (l : List Range) → Gapped c l → x ≤ c → any (within x) l ≡ false
gap_uncovered c x [] g h = refl
gap_uncovered c x ((start, end) ∷ l) g h = ground (arith, gap_uncovered end x l g.2)

module _ (c d : ℕ) (s e s' e' : ℕ) (l l' : List Range) where
  -- Two lists with gaps that cover the same cursors begin with the same range.
  same_range :
      Gapped c ((s, e) ∷ l)
      → Gapped d ((s', e') ∷ l')
      → ((x : ℕ) → any (within x) ((s, e) ∷ l) ≡ any (within x) ((s', e') ∷ l'))
      → (s ≡ s') × (e ≡ e')
  same_range g g' h = ground (
    arith,
    h s,
    h s',
    h e,
    h e',
    gap_uncovered e e l g.2,
    gap_uncovered e' e' l' g'.2,
    gap_uncovered e s' l g.2,
    gap_uncovered e' s l' g'.2,
    gap_uncovered e e' l g.2,
    gap_uncovered e' e l' g'.2,
    gap_uncovered e s l g.2,
    gap_uncovered e' s' l' g'.2,
  )

Gapped-eq :
    (c d : ℕ) (l l' : List Range)
    → Gapped c l
    → Gapped d l'
    → ((x : ℕ) → any (within x) l ≡ any (within x) l')
    → l ≡ l'
Gapped-eq c d [] [] g g' h = refl
Gapped-eq c d [] ((s, e) ∷ l) g g' h = absurd (ground (arith, h s))
Gapped-eq c d ((s, e) ∷ l) [] g g' h = absurd (ground (arith, h s))
Gapped-eq c d ((s, e) ∷ l) ((s', e') ∷ l') g g' h =
    let (starts, ends) = same_range c d s e s' e' l l' g g' h in
    ap₂ ◌∷◌ (ground (arith, starts, ends)) (
      Gapped-eq e e' l l' g.2 g'.2
        λ x. ground (arith, starts, ends, h x, gap_uncovered e x l g.2, gap_uncovered e' x l' g'.2))

-- Two normal progresses on a peer that cover the same cursors are the same record.
pub IsNormal-eq :
    (p q : ReplicaProgress)
    → IsNormal p
    → IsNormal q
    → p.peer_replica_id ≡ q.peer_replica_id
    → ((x : ℕ) → covered p x ≡ covered q x)
    → p ≡ q
IsNormal-eq p q v w peer h =
    λ i. record { peer_replica_id = peer i; cursor = cursors i; pending_ranges = pending i }
  where
    cursors : p.cursor ≡ q.cursor
    cursors = ground (
      arith,
      h p.cursor,
      h q.cursor,
      gap_uncovered p.cursor p.cursor p.pending_ranges v.gapped,
      gap_uncovered q.cursor q.cursor q.pending_ranges w.gapped,
    )

    pending : p.pending_ranges ≡ q.pending_ranges
    pending = Gapped-eq p.cursor q.cursor p.pending_ranges q.pending_ranges v.gapped w.gapped λ x.
        ground (
          arith,
          cursors,
          h x,
          gap_uncovered p.cursor x p.pending_ranges v.gapped,
          gap_uncovered q.cursor x q.pending_ranges w.gapped,
        )

abbrev pub advance_twice : ReplicaProgress → ℕ → ℕ → ℕ → ℕ → Result ReplicaProgress
advance_twice p a b c d =
    advance_replica_progress p (pos a) (pos b) >>= λ q. advance_replica_progress q (pos c) (pos d)

module _ (p : ReplicaProgress) (a b c d : ℕ) (v : IsNormal p) (h : a ≤ b) (k : c ≤ d) where
  twice-covers :
      (q : ReplicaProgress) × (advance_twice p a b c d ≡ ok q)
      × IsNormal q
      × ((x : ℕ) → covered q x ≡ (covered p x || within x (a, b)) || within x (c, d))
      × (q.peer_replica_id ≡ p.peer_replica_id)
  twice-covers =
      let (q, e, normal, covers, peer) = advance-covers p a b v h in
      let (r, f, normal', covers', peer') = advance-covers q c d normal k in
      (r, rw e f, normal', λ x. ground (arith, covers x, covers' x), peer' ∙ peer)

-- Two updates of a normal progress by ordered ranges lead to the same result in either order.
pub advance_comm :
    (p : ReplicaProgress) (a b c d : ℕ)
    → IsNormal p
    → a ≤ b
    → c ≤ d
    → advance_twice p a b c d ≡ advance_twice p c d a b
advance_comm p a b c d v h k =
    let (q, e, normal, covers, peer) = twice-covers p a b c d v h k in
    let (r, f, normal', covers', peer') = twice-covers p c d a b v k h in
    e
    ∙ ap ok
        (IsNormal-eq q r normal normal' (peer ∙ sym peer') λ x. ground (arith, covers x, covers' x))
    ∙ sym f

-- An update of a normal progress by an ordered range that is delivered twice leads to the same
-- result as one delivery.
advance_again :
    (p : ReplicaProgress) (a b : ℕ)
    → IsNormal p
    → a ≤ b
    → advance_twice p a b a b ≡ advance_replica_progress p (pos a) (pos b)
advance_again p a b v h =
    let (q, e, normal, covers, peer) = advance-covers p a b v h in
    let (r, f, normal', covers', peer') = advance-covers q a b normal h in
    rw e f
    ∙ ap ok (IsNormal-eq r q normal' normal peer' λ x. ground (arith, covers x, covers' x))
    ∙ sym e
