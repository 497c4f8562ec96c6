-- ===== src/Store/Resume.antt =====
-- `read_after` of the store in memory: what a delta holds, and that a client that goes on from the
-- cursor of a delta misses nothing and is not refused.
use statefuse.Base.{
  ℕ, ◌≡◌, refl, sym, ◌∙◌, ap, subst, Bool, true, false, ◌+◌, ◌-◌, ◌≤◌, Option, List, [], ◌∷◌, ◌++◌,
  arith, if◌then◌else◌, length, length-append, take, drop, ltb, any, zero, suc,
}
use statefuse.Base.Int.{ℤ, pos}
use statefuse.Result.{ok, >>=-eq-ok, ok-injective}
use statefuse.Ops.{Op}
use statefuse.OpLog.{OpLog, add}
use statefuse.Replica.Batches.{sum, concat, concat-batches_from, take_all, drop-add}
use statefuse.Store.{
  InMemoryStore, StoreDelta, read_after, delta_post_init, sizes_or_ones, ones, delta_batches,
  validate_limit, check_cursor, append,
}
use statefuse.Store.Invariant.{Ends, IsStore}
use statefuse.Store.Read.{splits, Enough, read_batches_lem}

length-take : (n : ℕ) (l : List Op) → n ≤ length l → length (take n l) ≡ n
length-take zero l h = refl
length-take (suc n) [] h = absurd (omega arith)
length-take (suc n) (x ∷ l) h = omega (arith, length-take n l (omega arith))

length-drop : (n : ℕ) (l : List Op) → n ≤ length l → length (drop n l) + n ≡ length l
length-drop zero l h = omega arith
length-drop (suc n) [] h = absurd (omega arith)
length-drop (suc n) (x ∷ l) h = omega (arith, length-drop n l (omega arith))

take-drop : (n : ℕ) (l : List Op) → take n l ++ drop n l ≡ l
take-drop zero l = refl
take-drop (suc n) [] = refl
take-drop (suc n) (x ∷ l) = ap (◌∷◌ x) (take-drop n l)

sizes_or_ones-sum :
    (sizes : List ℕ) (count : ℕ) → sum sizes ≡ count → sizes_or_ones sizes count ≡ sizes
unfolding sizes_or_ones ones
sizes_or_ones-sum [] count h = rw (sym h) refl
sizes_or_ones-sum (n ∷ sizes) count h = refl

delta_accepted :
    (d : StoreDelta)
    → any (λ n. ltb n 1) d.batch_sizes ≡ false
    → sum d.batch_sizes ≡ length d.ops
    → delta_post_init d ≡ ok d
unfolding delta_post_init
delta_accepted d p total =
    rw (sizes_or_ones-sum d.batch_sizes (length d.ops) total, p, total) (ground arith)

-- What a delta that was read from a cursor holds: the operations up to its own cursor, as the
-- batches they were appended in. It reaches the limit or the end of the store.
pub record Reads (s : InMemoryStore) (cursor : ℕ) (limit : Option ℕ) (d : StoreDelta) : Type 0 where
  pub resumes : d.ops ++ drop d.cursor s.append_order ≡ drop cursor s.append_order
  pub whole : concat (delta_batches d) ≡ d.ops
  pub positive : any (λ n. ltb n 1) d.batch_sizes ≡ false
  pub forward : cursor ≤ d.cursor
  pub bounded : d.cursor ≤ length s.append_order
  pub uncut : splits d.cursor 0 s.batch_ends ≡ false
  pub enough : Enough limit (length d.ops) d.cursor (length s.append_order)

abbrev slice : ℕ → ℕ × List ℕ → List Op → StoreDelta
slice cursor r order = record {
  cursor = r.0;
  ops = take (r.0 - cursor) (drop cursor order);
  batch_sizes = r.1;
}

slice-length :
    (cursor : ℕ) (r : ℕ × List ℕ) (order : List Op)
    → cursor ≤ r.0
    → r.0 ≤ length order
    → length (slice cursor r order).ops ≡ r.0 - cursor
slice-length cursor r order h k =
    length-take (r.0 - cursor) (drop cursor order)
      (omega (arith, length-drop cursor order (omega arith)))

slice-resumes :
    (cursor : ℕ) (r : ℕ × List ℕ) (order : List Op)
    → cursor ≤ r.0
    → (slice cursor r order).ops ++ drop r.0 order ≡ drop cursor order
slice-resumes cursor r order h =
    ap (λ n. take (r.0 - cursor) (drop cursor order) ++ drop n order) (omega arith)
    ∙ ap (λ l. take (r.0 - cursor) (drop cursor order) ++ l) (drop-add cursor (r.0 - cursor) order)
    ∙ take-drop (r.0 - cursor) (drop cursor order)

-- In a store with the invariant, from a cursor inside the append order that splits no batch, and
-- with a valid limit, `read_after` returns a delta. Its operations are those from the cursor up to
-- the cursor of the delta, cut into batches that are not empty; that cursor splits no batch either,
-- and the delta reaches the limit or the end of the order.
pub read_after_total :
    (s : InMemoryStore) (cursor : ℕ) (limit : Option ℤ) (bound : Option ℕ)
    → IsStore s
    → cursor ≤ length s.append_order
    → splits cursor 0 s.batch_ends ≡ false
    → validate_limit limit ≡ ok bound
    → (d : StoreDelta) × (read_after s (pos cursor) limit ≡ ok d) × Reads s cursor bound d
unfolding read_after check_cursor delta_batches
read_after_total s cursor limit bound valid inside uncut given =
    let (r, run, reached) =
      read_batches_lem cursor bound (length s.append_order) inside 0 [] cursor s.batch_ends
        valid.ends uncut (omega arith) (omega arith) refl in
    let count = slice-length cursor r s.append_order reached.forward reached.bounded in
    let total : sum r.1 ≡ length (slice cursor r s.append_order).ops =
      omega (arith, count, reached.sized, reached.forward) in
    (
      slice cursor r s.append_order,
      rw (outside s inside, given, run)
          (delta_accepted (slice cursor r s.append_order) reached.positive total),
      record {
        resumes = slice-resumes cursor r s.append_order reached.forward;
        whole = concat-batches_from _ 0 r.1 ∙ take_all (sum r.1) _ (omega (arith, total));
        positive = reached.positive;
        forward = reached.forward;
        bounded = reached.bounded;
        uncut = reached.uncut;
        enough = subst (λ n. Enough bound n r.0 (length s.append_order)) total reached.enough;
      },
    )
  where
    outside :
        (t : InMemoryStore)
        → cursor ≤ length t.append_order
        → ltb (length t.append_order) cursor ≡ false
    outside t h = ground arith

splits-append :
    (cursor previous : ℕ) (ends : List ℕ) (last end : ℕ)
    → Ends previous ends last
    → cursor ≤ last
    → splits cursor previous ends ≡ false
    → splits cursor previous (ends ++ (end ∷ [])) ≡ false
unfolding splits
splits-append cursor previous [] last end e h u = ground (arith, h, e)
splits-append cursor previous (n ∷ ends) last end e h u =
    ground (arith, u, splits-append cursor n ends last end e.1 h)

-- In a store with the invariant, a cursor inside the append order that splits no batch is still one
-- after an `append` that returns.
pub append-cursor :
    (s : InMemoryStore) (op : Op) (cursor : ℕ) {r : InMemoryStore × Bool}
    → IsStore s
    → cursor ≤ length s.append_order
    → splits cursor 0 s.batch_ends ≡ false
    → append s op ≡ ok r
    → (cursor ≤ length r.0.append_order) × (splits cursor 0 r.0.batch_ends ≡ false)
unfolding append
append-cursor s op cursor valid inside uncut e =
    let ((log, new), added, made) = >>=-eq-ok (add s.oplog op) _ e in
    subst (λ r. (cursor ≤ length r.0.append_order) × (splits cursor 0 r.0.batch_ends ≡ false))
      (ok-injective made) (kept log new)
  where
    kept :
        (log : OpLog) (new : Bool)
        → let t =
            if new
            then record s {
              oplog = log;
              append_order = s.append_order ++ (op ∷ []);
              batch_ends = s.batch_ends ++ (length (s.append_order ++ (op ∷ [])) ∷ []);
            }
            else record s { oplog = log } in
          (cursor ≤ length t.append_order) × (splits cursor 0 t.batch_ends ≡ false)
    kept log true = (
      omega (arith, length-append s.append_order (op ∷ [])),
      splits-append cursor 0 s.batch_ends (length s.append_order) _ valid.ends inside uncut,
    )
    kept log false = (inside, uncut)
