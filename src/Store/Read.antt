-- ===== src/Store/Read.antt =====
-- The loop of `read_after` over the ends of the batches.
use statefuse.Base.{
  ℕ, ◌≡◌, refl, Bool, true, false, ◌&&◌, ◌||◌, ◌+◌, ◌-◌, ◌≤◌, ◌<◌, Option, none, some, List, [],
  ◌∷◌, ◌++◌, arith, ltb, any, max, Bool-cases, inl, inr, ◌⊎◌,
}
use statefuse.Result.{ok}
use statefuse.Replica.Batches.{sum}
use statefuse.Store.{read_batches, is_full}
use statefuse.Store.Invariant.{Ends}

-- The cursor stands inside a batch.
unfoldable pub splits : ℕ → ℕ → List ℕ → Bool
splits cursor previous [] = false
splits cursor previous (end ∷ ends) =
    (ltb previous cursor && ltb cursor end) || splits cursor end ends

-- The delta reaches the limit, or the last end.
abbrev pub Enough : Option ℕ → ℕ → ℕ → ℕ → Type 0
Enough none total reached last = reached ≡ last
Enough (some limit) total reached last = (limit ≤ total) ⊎ (reached ≡ last)

-- What the loop returns from a cursor where it does not raise.
pub record Reached (cursor : ℕ) (limit : Option ℕ) (previous : ℕ) (ends : List ℕ) (after last : ℕ)
    (r : ℕ × List ℕ) : Type 0 where
  pub sized : cursor + sum r.1 ≡ r.0
  pub positive : any (λ n. ltb n 1) r.1 ≡ false
  pub forward : after ≤ r.0
  pub bounded : r.0 ≤ last
  pub uncut : splits r.0 previous ends ≡ false
  pub enough : Enough limit (sum r.1) r.0 last

splits-below :
    (c p : ℕ) (ends : List ℕ) (last : ℕ) → Ends p ends last → c ≤ p → splits c p ends ≡ false
unfolding splits
splits-below c p [] last e h = refl
splits-below c p (end ∷ ends) last e h = ground (arith, splits-below c end ends last e.1, e.0, h)

Ends-last : (p : ℕ) (ends : List ℕ) (last : ℕ) → Ends p ends last → p ≤ last
Ends-last p [] last e = omega (arith, e)
Ends-last p (end ∷ ends) last e = omega (arith, e.0, Ends-last end ends last e.1)

sum-append : (a b : List ℕ) → sum (a ++ b) ≡ sum a + sum b
sum-append [] b = omega arith
sum-append (n ∷ a) b = omega (arith, sum-append a b)

Enough-end :
    (limit : Option ℕ) (total reached last : ℕ) → reached ≡ last → Enough limit total reached last
Enough-end none total reached last h = h
Enough-end (some n) total reached last h = inr h

Enough-full :
    (limit : Option ℕ) (total reached last : ℕ)
    → is_full limit total ≡ true
    → Enough limit total reached last
Enough-full none total reached last h = absurd cc
Enough-full (some n) total reached last h = inl (ground (arith, h))

any-snoc :
    (sizes : List ℕ) (n : ℕ)
    → any (λ n. ltb n 1) sizes ≡ false
    → 0 < n
    → any (λ n. ltb n 1) (sizes ++ (n ∷ [])) ≡ false
any-snoc [] n h k = ground arith
any-snoc (m ∷ sizes) n h k = ground (arith, h, any-snoc sizes n)

module _ (cursor : ℕ) (limit : Option ℕ) (last : ℕ) (inside : cursor ≤ last) where
  abbrev pub Runs : ℕ → List ℕ → ℕ → List ℕ → Type 0
  Runs previous sizes after ends =
      (r : ℕ × List ℕ) × (read_batches cursor limit previous sizes after ends ≡ ok r)
      × Reached cursor limit previous ends after last r

  -- The first end of the list lies at or before what was read.
  Reached-later :
      (previous end : ℕ) (ends : List ℕ) (before after : ℕ) (r : ℕ × List ℕ)
      → end ≤ after
      → before ≤ after
      → Reached cursor limit end ends after last r
      → Reached cursor limit previous (end ∷ ends) before last r
  unfolding splits
  Reached-later previous end ends before after r h k reached = record {
    sized = reached.sized;
    positive = reached.positive;
    forward = omega (arith, reached.forward);
    bounded = reached.bounded;
    uncut = ground (arith, reached.uncut, reached.forward);
    enough = reached.enough;
  }

  pub read_batches_lem :
      (previous : ℕ) (sizes : List ℕ) (after : ℕ) (ends : List ℕ)
      → Ends previous ends last
      → splits cursor previous ends ≡ false
      → after ≡ max cursor previous
      → cursor + sum sizes ≡ after
      → any (λ n. ltb n 1) sizes ≡ false
      → Runs previous sizes after ends
  unfolding read_batches splits
  read_batches_lem previous sizes after [] e s at total p = (
    (after, sizes),
    refl,
    record {
      sized = total;
      positive = p;
      forward = omega arith;
      bounded = omega arith;
      uncut = refl;
      enough = Enough-end limit (sum sizes) after last (omega arith);
    },
  )
  read_batches_lem previous sizes after (end ∷ ends) e s at total p =
      elim (Bool-cases (ltb cursor end)) [
        | inl taken ↦ elim (Bool-cases (is_full limit (sum (sizes ++ ((end - previous) ∷ []))))) [
          | inl full ↦ (
            (end, sizes ++ ((end - previous) ∷ [])),
            rw (before taken, taken, full) refl,
            record {
              sized = grown taken;
              positive = any-snoc sizes (end - previous) p (omega (arith, e.0));
              forward = ground (arith, at, e.0, before taken);
              bounded = Ends-last end ends last e.1;
              uncut = ground (arith, splits-below end end ends last e.1);
              enough = Enough-full limit _ end last full;
            },
          )
          | inr more ↦
              let (r, run, reached) =
                read_batches_lem end (sizes ++ ((end - previous) ∷ [])) end ends e.1
                  (ground (arith, s)) (ground (arith, taken)) (grown taken)
                  (any-snoc sizes (end - previous) p (omega (arith, e.0))) in
              (
                r,
                rw (before taken, taken, more) run,
                Reached-later previous end ends after end r (omega arith)
                    (ground (arith, at, e.0, before taken)) reached,
              )
        ]
        | inr passed ↦
            let (r, run, reached) =
              read_batches_lem end sizes after ends e.1 (ground (arith, s))
                (ground (arith, at, passed, e.0)) total p in
            (
              r,
              rw passed (ground (arith, run)),
              Reached-later previous end ends after after r (ground (arith, at, passed))
                  (omega arith) reached,
            )
      ]
    where
      before : ltb cursor end ≡ true → ltb previous cursor ≡ false
      before taken = ground (arith, s, taken)

      grown : ltb cursor end ≡ true → cursor + sum (sizes ++ ((end - previous) ∷ [])) ≡ end
      grown taken =
          ground (arith, sum-append sizes ((end - previous) ∷ []), total, at, e.0, before taken)
