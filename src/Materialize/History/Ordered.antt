-- ===== src/Materialize/History/Ordered.antt =====
-- Histories in the order of time: selecting from one, and adding an item to one.
use statefuse.Base.{
  ℕ, String, ◌≡◌, refl, sym, ◌∙◌, ap, subst, Bool, List, [], ◌∷◌, ◌++◌, map, inl, inr, Bool-cases,
  All, All-append,
}
use statefuse.Base.Order.{string_key, nat_key, pair_key, option_key}
use statefuse.Base.Sorted.{sorted_by}
use statefuse.Base.Stable.{pick, pick-sorted, sorted-append_sorted, All-sorted_by, All-pick}
use statefuse.Result.{ok, >>=-eq-ok, ok-injective}
use statefuse.Host.{Host, parse_utc_iso}
use statefuse.Materialize.History.{Keyed, with_keys, in_time_order}

module _ {A : Type 0} where
  abbrev pub item_of : Keyed A → A
  item_of x = x.1

  map-append_item : (l m : List (Keyed A)) → map item_of (l ++ m) ≡ map item_of l ++ map item_of m
  map-append_item [] m = refl
  map-append_item (x ∷ l) m = ap (λ r. x.1 ∷ r) (map-append_item l m)

  map-pick :
      (p : A → Bool) (l : List (Keyed A))
      → map item_of (pick (λ x. p x.1) l) ≡ pick p (map item_of l)
  unfolding pick
  map-pick p [] = refl
  map-pick p (x ∷ l) = elim (Bool-cases (p x.1)) [
    | inl e ↦ rw e (ap (λ r. x.1 ∷ r) (map-pick p l))
    | inr e ↦ rw e (map-pick p l)
  ]

module _ {A : Type 0} (h : Host) (time_of : A → String) (id_of : A → String) where
  abbrev order : List (Keyed A) → List (Keyed A)
  order = sorted_by (λ x. x.0)

  -- The keys are those of the item.
  abbrev IsKeyed : Keyed A → Type 0
  IsKeyed x = (parse_utc_iso h (time_of x.1) ≡ ok x.0.0) × (id_of x.1 ≡ x.0.1)

  with_keys-IsKeyed :
      (l : List A) {ks : List (Keyed A)}
      → with_keys h time_of id_of l ≡ ok ks
      → All IsKeyed ks × (map item_of ks ≡ l)
  unfolding with_keys
  with_keys-IsKeyed [] done =
      subst (λ ks. All IsKeyed ks × (map item_of ks ≡ [])) (ok-injective done) (tt, refl)
  with_keys-IsKeyed (x ∷ l) done =
      let (t, read, rest) = >>=-eq-ok (parse_utc_iso h (time_of x)) _ done in
      let (ks, keyed, made) = >>=-eq-ok (with_keys h time_of id_of l) _ rest in
      let ih = with_keys-IsKeyed l keyed in
      subst (λ ks. All IsKeyed ks × (map item_of ks ≡ x ∷ l)) (ok-injective made)
        (((read, refl), ih.0), ap (λ r. x ∷ r) ih.1)

  with_keys_of_IsKeyed :
      (ks : List (Keyed A)) → All IsKeyed ks → with_keys h time_of id_of (map item_of ks) ≡ ok ks
  unfolding with_keys
  with_keys_of_IsKeyed [] k = refl
  with_keys_of_IsKeyed (((t, id), x) ∷ ks) k = rw (k.0.0, with_keys_of_IsKeyed ks k.1, k.0.1) refl

  in_time_order_of :
      (l : List A) {s : List A}
      → in_time_order h time_of id_of l ≡ ok s
      → (ks : List (Keyed A)) × All IsKeyed ks × (map item_of ks ≡ l) × (map item_of (order ks) ≡ s)
  unfolding in_time_order
  in_time_order_of l done =
      let (ks, keyed, made) = >>=-eq-ok (with_keys h time_of id_of l) _ done in
      let (all_keyed, items) = with_keys-IsKeyed l keyed in
      (ks, all_keyed, items, ok-injective made)

  in_time_order_keyed :
      (ks : List (Keyed A))
      → All IsKeyed ks
      → in_time_order h time_of id_of (map item_of ks) ≡ ok (map item_of (order ks))
  unfolding in_time_order
  in_time_order_keyed ks k = rw (with_keys_of_IsKeyed ks k) refl

  -- To select from a history is to order the selection.
  pub in_time_order-pick :
      (p : A → Bool) (l : List A) {s : List A}
      → in_time_order h time_of id_of l ≡ ok s
      → in_time_order h time_of id_of (pick p l) ≡ ok (pick p s)
  in_time_order-pick p l done =
      let (ks, keyed, items, made) = in_time_order_of l done in
      ap (λ x. in_time_order h time_of id_of (pick p x)) (sym items)
      ∙ ap (in_time_order h time_of id_of) (sym (map-pick p ks))
      ∙ in_time_order_keyed (pick (λ x. p x.1) ks) (All-pick IsKeyed (λ x. p x.1) ks keyed)
      ∙ ap ok (
          ap (map item_of) (sym (pick-sorted (λ x. x.0) (λ x. p x.1) ks))
          ∙ map-pick p (order ks)
          ∙ ap (pick p) made)

  with_keys-last :
      (l : List A) (r : A) {ks : List (Keyed A)}
      → with_keys h time_of id_of (l ++ r ∷ []) ≡ ok ks
      → (t : ℕ) × (parse_utc_iso h (time_of r) ≡ ok t)
  unfolding with_keys
  with_keys-last [] r done =
      let (t, read, _) = >>=-eq-ok (parse_utc_iso h (time_of r)) _ done in (t, read)
  with_keys-last (x ∷ l) r done =
      let (t, read, rest) = >>=-eq-ok (parse_utc_iso h (time_of x)) _ done in
      let (ks, keyed, _) = >>=-eq-ok (with_keys h time_of id_of (l ++ r ∷ [])) _ rest in
      with_keys-last l r keyed

  in_time_order-last :
      (ks : List (Keyed A)) (r : A) (t : ℕ)
      → All IsKeyed ks
      → parse_utc_iso h (time_of r) ≡ ok t
      → in_time_order h time_of id_of (map item_of ks ++ r ∷ [])
        ≡ ok (map item_of (order (ks ++ ((t, id_of r), r) ∷ [])))
  in_time_order-last ks r t keyed read =
      let last : Keyed A = ((t, id_of r), r) in
      ap (in_time_order h time_of id_of) (sym (map-append_item ks (last ∷ [])))
      ∙ in_time_order_keyed (ks ++ last ∷ [])
          (All-append IsKeyed ks (last ∷ []) keyed ((read, refl), tt))

  keyed_of :
      (l : List A) {s : List A}
      → in_time_order h time_of id_of l ≡ ok s
      → (ks : List (Keyed A)) × (with_keys h time_of id_of l ≡ ok ks)
  unfolding in_time_order
  keyed_of l done =
      let (ks, keyed, _) = >>=-eq-ok (with_keys h time_of id_of l) _ done in (ks, keyed)

  -- An item may be added to the history, instead of to what it was made from.
  pub in_time_order-append :
      (l : List A) (r : A) {s a : List A}
      → in_time_order h time_of id_of l ≡ ok s
      → in_time_order h time_of id_of (s ++ r ∷ []) ≡ ok a
      → in_time_order h time_of id_of (l ++ r ∷ []) ≡ ok a
  in_time_order-append l r {s} {a} done added =
      let (ks, keyed, items, made) = in_time_order_of l done in
      let (t, read) = with_keys-last s r (keyed_of (s ++ r ∷ []) added).1 in
      let last : Keyed A = ((t, id_of r), r) in
      ap (λ x. in_time_order h time_of id_of (x ++ r ∷ [])) (sym items)
      ∙ in_time_order-last ks r t keyed read
      ∙ ap (λ x. ok (map item_of x)) (sym (sorted-append_sorted (λ x. x.0) ks last))
      ∙ sym (in_time_order-last (order ks) r t (All-sorted_by (λ x. x.0) IsKeyed ks keyed) read)
      ∙ ap (λ x. in_time_order h time_of id_of (x ++ r ∷ [])) made
      ∙ added

  All-items {κ} :
      (P : A → Type κ) (ks : List (Keyed A)) → All P (map item_of ks) → All (λ x. P x.1) ks
  All-items P [] k = tt
  All-items P (x ∷ ks) k = (k.0, All-items P ks k.1)

  items-All {κ} :
      (P : A → Type κ) (ks : List (Keyed A)) → All (λ x. P x.1) ks → All P (map item_of ks)
  items-All P [] k = tt
  items-All P (x ∷ ks) k = (k.0, items-All P ks k.1)

  -- What holds of all items holds of all items of their history.
  pub All-in_time_order {κ} :
      (P : A → Type κ) (l : List A) {s : List A}
      → All P l
      → in_time_order h time_of id_of l ≡ ok s
      → All P s
  All-in_time_order P l {s} holds done =
      let (ks, _, items, made) = in_time_order_of l done in
      subst (All P) made (
        items-All P (order ks) (
          All-sorted_by (λ x. x.0) (λ x. P x.1) ks
            (All-items P ks (subst (All P) (sym items) holds))))
