-- ===== src/Replica/Batches.antt =====
-- Deltas and manifests that replicas exchange, and how a delta is cut into its batches. `StoreDelta`
-- of store.py is cut the same way.
use text.Mathlib.Text.{◌==◌}
use statefuse.Base.{
  ℕ, String, ◌≡◌, refl, sym, ◌∙◌, ap, Bool, true, false, not, ◌&&◌, ◌||◌, ◌+◌, List, [], ◌∷◌, ◌++◌,
  arith, any, length, take, drop, zero, suc, subst,
}
use native.Mathlib.Nat.{suc-add}
use statefuse.Base.{◌==◌ as nat_eq, ◌≤◌}
use statefuse.Base.Int.{ℤ, pos, ltb_ℤ}
use statefuse.Result.{Result, ok, value_error, raise_if, ◌>>◌, >>-eq-ok, ok-injective}
use statefuse.Ops.{Op}

abbrev pub sum : List ℕ → ℕ
sum [] = 0
sum (n ∷ l) = n + sum l

-- `_validate_batch_sizes`
unfoldable pub validate_batch_sizes : List ℕ → ℕ → Result (Unit {0})
validate_batch_sizes sizes op_count =
    raise_if (any (λ n. nat_eq n 0) sizes || not (nat_eq (sum sizes) op_count))
      (value_error "Replica batch sizes must cover every operation.")

-- `tuple(sizes) or ((count,) if count else ())`
unfoldable pub one_batch : List ℕ → ℕ → List ℕ
one_batch [] zero = []
one_batch [] (suc n) = suc n ∷ []
one_batch (n ∷ sizes) count = n ∷ sizes

module _ {ℓ} {A : Type ℓ} where
  -- The loop of the two `batches` properties: `ops[offset : offset + size]` for each size.
  unfoldable pub batches_from : List A → ℕ → List ℕ → List (List A)
  batches_from ops offset [] = []
  batches_from ops offset (size ∷ sizes) =
      take size (drop offset ops) ∷ batches_from ops (offset + size) sizes

  abbrev pub concat : List (List A) → List A
  concat [] = []
  concat (l ∷ ls) = l ++ concat ls

  take-add : (a b : ℕ) (l : List A) → take (a + b) l ≡ take a l ++ take b (drop a l)
  take-add zero b l = ap (λ n. take n l) (omega arith)
  take-add (suc a) b [] = ap (λ n. take n []) (suc-add a b) ∙ nothing b
    where
      nothing : (n : ℕ) → ◌≡◌ {A = List A} [] (take n [])
      nothing zero = refl
      nothing (suc n) = refl
  take-add (suc a) b (x ∷ l) = ap (λ n. take n (x ∷ l)) (suc-add a b) ∙ ap (◌∷◌ x) (take-add a b l)

  pub drop-add : (a b : ℕ) (l : List A) → drop (a + b) l ≡ drop b (drop a l)
  drop-add zero b l = ap (λ n. drop n l) (omega arith)
  drop-add (suc a) b [] = ap (λ n. drop n []) (suc-add a b) ∙ nothing b
    where
      nothing : (n : ℕ) → ◌≡◌ {A = List A} [] (drop n [])
      nothing zero = refl
      nothing (suc n) = refl
  drop-add (suc a) b (x ∷ l) = ap (λ n. drop n (x ∷ l)) (suc-add a b) ∙ drop-add a b l

  pub take_all : (n : ℕ) (l : List A) → length l ≤ n → take n l ≡ l
  take_all zero [] h = refl
  take_all zero (x ∷ l) h = absurd (omega arith)
  take_all (suc n) [] h = refl
  take_all (suc n) (x ∷ l) h = ap (◌∷◌ x) (take_all n l (omega arith))

  pub concat-batches_from :
      (ops : List A) (offset : ℕ) (sizes : List ℕ)
      → concat (batches_from ops offset sizes) ≡ take (sum sizes) (drop offset ops)
  unfolding batches_from
  concat-batches_from ops offset [] = refl
  concat-batches_from ops offset (size ∷ sizes) =
      ap (◌++◌ (take size (drop offset ops))) (
        concat-batches_from ops (offset + size) sizes
        ∙ ap (take (sum sizes)) (drop-add offset size ops))
      ∙ sym (take-add size (sum sizes) (drop offset ops))

pub record ReplicaDelta : Type 0 where
  pub sender_replica_id : String
  pub cursor_before : ℤ
  pub cursor_after : ℤ
  pub ops : List Op
  pub batch_sizes : List ℕ

-- The checks that a delta and a manifest share.
unfoldable pub check_cursors : String → ℤ → ℤ → Result (Unit {0})
check_cursors sender before after = do
  raise_if (sender == "") (value_error "sender_replica_id is required.")
  raise_if (ltb_ℤ before (pos 0) || ltb_ℤ after before)
      (value_error "cursors must form a non-negative range.")

abbrev is_empty {ℓ} : {A : Type ℓ} → List A → Bool
is_empty [] = true
is_empty (x ∷ l) = false

unfoldable pub delta_post_init : ReplicaDelta → Result ReplicaDelta
unfolding validate_batch_sizes one_batch check_cursors
delta_post_init d = do
  let sizes = one_batch d.batch_sizes (length d.ops)
  validate_batch_sizes sizes (length d.ops)
  check_cursors d.sender_replica_id d.cursor_before d.cursor_after
  raise_if (not (ltb_ℤ d.cursor_before d.cursor_after) && not (is_empty d.ops))
      (value_error "A zero-width replica delta cannot contain operations.")
  ok (record d { batch_sizes = sizes })

unfoldable pub batches : ReplicaDelta → List (List Op)
unfolding batches_from
batches d = batches_from d.ops 0 d.batch_sizes

pub record ReplicaManifest : Type 0 where
  pub sender_replica_id : String
  pub cursor_before : ℤ
  pub cursor_after : ℤ
  pub entries : List (String × String)
  pub batch_sizes : List ℕ

unfoldable pub manifest_post_init : ReplicaManifest → Result ReplicaManifest
unfolding validate_batch_sizes one_batch check_cursors
manifest_post_init m = do
  let sizes = one_batch m.batch_sizes (length m.entries)
  validate_batch_sizes sizes (length m.entries)
  check_cursors m.sender_replica_id m.cursor_before m.cursor_after
  raise_if (any (λ e. e.0 == "" || e.1 == "") m.entries)
      (value_error "Replica manifest entries require operation IDs and digests.")
  ok (record m { batch_sizes = sizes })

sum_checked :
    (bad : Bool) (total count : ℕ)
    → raise_if
        (bad || not (nat_eq total count))
        (value_error "Replica batch sizes must cover every operation.")
      ≡ ok tt
    → total ≡ count
sum_checked bad total count h = ground (arith, h)

sizes_cover :
    (given d : ReplicaDelta) → delta_post_init given ≡ ok d → length d.ops ≤ sum d.batch_sizes
unfolding delta_post_init validate_batch_sizes
sizes_cover given d e =
    let (sized, rest) = >>-eq-ok _ _ e in
    let (ends, rest) = >>-eq-ok _ _ rest in
    let (width, made) = >>-eq-ok _ _ rest in
    subst (λ x. length x.ops ≤ sum x.batch_sizes) (ok-injective made)
      (let total =
          sum_checked _ (sum (one_batch given.batch_sizes (length given.ops))) (length given.ops)
            sized in
        omega arith)

-- The batches of a delta that its constructor returned are its operations, in their order, cut into
-- pieces.
pub concat-batches :
    (given d : ReplicaDelta) → delta_post_init given ≡ ok d → concat (batches d) ≡ d.ops
unfolding batches
concat-batches given d e =
    concat-batches_from d.ops 0 d.batch_sizes
    ∙ take_all (sum d.batch_sizes) d.ops (sizes_cover given d e)
