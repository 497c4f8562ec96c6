-- ===== src/Materialize/History/Index.antt =====
-- The histories by conflict and by lane agree, and adding a record to them is filing it anew.
use mathlib.Core.List.{append-nil}
use statefuse.Base.{
  String, ◌≡◌, refl, sym, ◌∙◌, ap, Bool, true, false, List, [], ◌∷◌, ◌++◌, if◌then◌else◌, arith,
  inl, inr, Bool-cases, some, none, is_some,
}
use statefuse.Base.Dict.{Dict, get, keys, key_refl}
use statefuse.Base.Order.{Key, string_key, nat_key, pair_key, option_key, ◌==◌}
use statefuse.Base.Sorted.{sorted, sorted_by, contains, contains-sorted, contains-keys}
use statefuse.Base.Stable.{pick, pick-append}
use statefuse.Base.Groups.{group, group-put}
use statefuse.Result.{ok, >>=-eq-ok, ok-injective}
use statefuse.Host.{Host}
use statefuse.Materialize.History.{
  in_time_order, order_groups, group_by, history_by, append_history, with_keys,
}
use statefuse.Materialize.History.Groups.{having, group-group_by}
use statefuse.Materialize.History.Ordered.{in_time_order-append}

module _ {A : Type 0} (h : Host) (time_of : A → String) (id_of : A → String) where
  in_time_order-nil : in_time_order h time_of id_of [] ≡ ok []
  unfolding in_time_order with_keys sorted_by
  in_time_order-nil = refl

module _ {A K : Type 0} ⦃o : Key K⦄ where
  group-cons :
      (k j : K) (items : List A) (e : Dict K (List A))
      → group k ((j, items) ∷ e) ≡ (if j == k then items else group k e)
  unfolding group get
  group-cons k j items e = go (j == k)
    where
      go :
          (b : Bool)
          → ◌≡◌ {A = List A}
              (elim (if b then some items else get k e) [ none ↦ [] | some l ↦ l ])
              (if b then items else elim (get k e) [ none ↦ [] | some l ↦ l ])
      go true = refl
      go false = refl

  group_absent : (k : K) (d : Dict K (List A)) → is_some (get k d) ≡ false → group k d ≡ []
  unfolding group
  group_absent k d absent = ground (arith, absent)

  filed_under : (key : A → K) (k : K) (l : List A) → having key k l ≡ group k (group_by key [] l)
  unfolding group get
  filed_under key k l = sym (group-group_by key k [] l)

  module _ (h : Host) (time_of : A → String) (id_of : A → String) where
    group-order_groups :
        (k : K) (d : Dict K (List A)) (ks : List K) {e : Dict K (List A)}
        → order_groups h time_of id_of d ks ≡ ok e
        → in_time_order h time_of id_of (if contains k ks then group k d else []) ≡ ok (group k e)
    unfolding order_groups contains get
    group-order_groups k d [] done =
        in_time_order-nil h time_of id_of ∙ ap (λ e. ok (group k e)) (ok-injective done)
    group-order_groups k d (j ∷ ks) done =
        let (items, ordered, rest) = >>=-eq-ok (in_time_order h time_of id_of (group j d)) _ done in
        let (e, later, made) = >>=-eq-ok (order_groups h time_of id_of d ks) _ rest in
        let ih = group-order_groups k d ks later in
        elim (Bool-cases (j == k)) [
          | inl own ↦ rw own (
              ap (λ x. in_time_order h time_of id_of (group x d)) (sym ((o.beq_iff j k).0 own))
              ∙ ordered
              ∙ ap (λ b. ok (if b then items else group k e)) (sym own)
              ∙ ap ok (sym (group-cons k j items e))
              ∙ ap (λ x. ok (group k x)) (ok-injective made))
          | inr other ↦ rw other (
              ih
              ∙ ap (λ b. ok (if b then items else group k e)) (sym other)
              ∙ ap ok (sym (group-cons k j items e))
              ∙ ap (λ x. ok (group k x)) (ok-injective made))
        ]

    -- The history of a key is what was filed under it, in the order of time.
    pub group-history_by :
        (key : A → K) (k : K) (l : List A) {e : Dict K (List A)}
        → history_by h time_of id_of key l ≡ ok e
        → in_time_order h time_of id_of (having key k l) ≡ ok (group k e)
    unfolding history_by
    group-history_by key k l done =
        let d = group_by key [] l in
        ap (in_time_order h time_of id_of) (filed d refl)
        ∙ group-order_groups k d (sorted (keys d)) done
      where
        filed :
            (d : Dict K (List A))
            → group_by key [] l ≡ d
            → having key k l ≡ (if contains k (sorted (keys d)) then group k d else [])
        filed d e = filed_under key k l ∙ ap (group k) e ∙ elim (Bool-cases (is_some (get k d))) [
          | inl there ↦
              ap (λ b. if b then group k d else [])
                (sym (contains-sorted k (keys d) ∙ contains-keys k d ∙ there))
          | inr absent ↦
              group_absent k d absent
              ∙ ap (λ b. if b then group k d else [])
                  (sym (contains-sorted k (keys d) ∙ contains-keys k d ∙ absent))
        ]

    having-last_own :
        (key : A → K) (l : List A) (r : A)
        → having key (key r) (l ++ r ∷ []) ≡ having key (key r) l ++ r ∷ []
    having-last_own key l r =
        pick-append (λ x. key x == key r) l (r ∷ [])
        ∙ ap (λ m. having key (key r) l ++ m) (one r (key_refl (key r)))
      where
        one : (x : A) → (key x == key r) ≡ true → having key (key r) (x ∷ []) ≡ x ∷ []
        one x e = unfold pick in rw e refl

    having-last_other :
        (key : A → K) (k : K) (l : List A) (r : A)
        → (key r == k) ≡ false
        → having key k (l ++ r ∷ []) ≡ having key k l
    having-last_other key k l r other =
        pick-append (λ x. key x == k) l (r ∷ [])
        ∙ ap (λ m. having key k l ++ m) (none_of r other)
        ∙ append-nil (having key k l)
      where
        none_of : (x : A) → (key x == k) ≡ false → having key k (x ∷ []) ≡ []
        none_of x e = unfold pick in rw e refl

    -- An item leaves the history of another key alone.
    pub history_by_other :
        (key : A → K) (l : List A) (r : A) {old full : Dict K (List A)}
        → history_by h time_of id_of key l ≡ ok old
        → history_by h time_of id_of key (l ++ r ∷ []) ≡ ok full
        → (k : K) → (key r == k) ≡ false
        → group k old ≡ group k full
    history_by_other key l r made all_made k other = ok-injective (
        sym (group-history_by key k l made)
        ∙ ap (in_time_order h time_of id_of) (sym (having-last_other key k l r other))
        ∙ group-history_by key k (l ++ r ∷ []) all_made)

    -- Adding an item to the history of its key is filing it with the others.
    pub append_history-history_by :
        (key : A → K) (l : List A) (r : A) {old new full : Dict K (List A)}
        → history_by h time_of id_of key l ≡ ok old
        → append_history h time_of id_of (key r) r old ≡ ok new
        → history_by h time_of id_of key (l ++ r ∷ []) ≡ ok full
        → (k : K) → group k new ≡ group k full
    unfolding append_history
    append_history-history_by key l r {old} {new} {full} made added all_made k =
        let (items, ordered, put_in) =
          >>=-eq-ok (in_time_order h time_of id_of (group (key r) old ++ r ∷ [])) _ added in
        let start : group k new ≡ (if key r == k then items else group k old) =
          ap (group k) (sym (ok-injective put_in)) ∙ group-put (key r) k items old in
        elim (Bool-cases (key r == k)) [
          | inl own ↦
              start
              ∙ ap (λ b. if b then items else group k old) own
              ∙ ok-injective (
                  sym (
                    in_time_order-append h time_of id_of (having key (key r) l) r
                      (group-history_by key (key r) l made) ordered)
                  ∙ ap (in_time_order h time_of id_of) (sym (having-last_own key l r))
                  ∙ group-history_by key (key r) (l ++ r ∷ []) all_made)
              ∙ ap (λ x. group x full) ((o.beq_iff (key r) k).0 own)
          | inr other ↦
              start
              ∙ ap (λ b. if b then items else group k old) other
              ∙ history_by_other key l r made all_made k other
        ]
