-- ===== src/Base/Groups.antt =====
-- Python's `defaultdict(list)` and `defaultdict(set)`, and `{k: f(d[k]) for k in sorted(d)}`.
use mathlib.Core.Path.{◌≡◌, refl}
use mathlib.Core.Logic.{inl, inr}
use mathlib.Core.Bool.{◌&&◌, ◌||◌}
use mathlib.Core.Option.{Option, none, some}
use mathlib.Core.List.{List, [], ◌∷◌, ◌++◌}
use native.Mathlib.Omega.{arith}
use statefuse.Base.Tests.{if◌then◌else◌, is_some, Option-cases}
use statefuse.Base.Order.{Key, ◌==◌}
use statefuse.Base.Dict.{Dict, keys, get, put, get-put}
use statefuse.Base.Sorted.{contains, sorted, contains-sorted, contains-keys}

module _ {ℓ κ} {K : Type ℓ} {V : Type κ} ⦃o : Key K⦄ where
  -- `d.get(k, [])`
  unfoldable pub group : K → Dict K (List V) → List V
  group k d = elim (get k d) [ none ↦ [] | some l ↦ l ]

  pub group-put :
      (k j : K) (l : List V) (d : Dict K (List V))
      → group j (put k l d) ≡ (if k == j then l else group j d)
  unfolding group
  group-put k j l d = ground (arith, get-put k j l d, o.beq_iff k j)

  -- `d[k].append(v)`
  unfoldable pub append_to : K → V → Dict K (List V) → Dict K (List V)
  unfolding group
  append_to k v d = put k (group k d ++ v ∷ []) d

  pub group-append_to :
      (k j : K) (v : V) (d : Dict K (List V))
      → group j (append_to k v d) ≡ (if k == j then group j d ++ v ∷ [] else group j d)
  unfolding group append_to
  group-append_to k j v d = ground (arith, get-put k j (group k d ++ v ∷ []) d, o.beq_iff k j)

  pub has-append_to :
      (k j : K) (v : V) (d : Dict K (List V))
      → is_some (get j (append_to k v d)) ≡ k == j || is_some (get j d)
  unfolding append_to
  has-append_to k j v d = ground (arith, get-put k j (group k d ++ v ∷ []) d, o.beq_iff k j)

module _ {ℓ} {V : Type ℓ} ⦃p : Key V⦄ where
  -- `s.add(v)`
  unfoldable pub add_member : V → List V → List V
  unfolding contains
  add_member v l = if contains v l then l else l ++ v ∷ []

  pub contains-append : (v : V) (l m : List V) → contains v (l ++ m) ≡ contains v l || contains v m
  unfolding contains
  contains-append v [] m = refl
  contains-append v (x ∷ l) m = ground (arith, contains-append v l m)

  pub contains-add_member :
      (v w : V) (l : List V) → contains w (add_member v l) ≡ v == w || contains w l
  unfolding add_member contains
  contains-add_member v w l = ground (arith, contains-append w l (v ∷ []), p.beq_iff v w)

module _ {ℓ κ} {K : Type ℓ} {V : Type κ} ⦃o : Key K⦄ ⦃p : Key V⦄ where
  -- `d[k].add(v)`
  unfoldable pub add_to : K → V → Dict K (List V) → Dict K (List V)
  unfolding group add_member
  add_to k v d = put k (add_member v (group k d)) d

  pub contains-add_to :
      (k j : K) (v w : V) (d : Dict K (List V))
      → contains w (group j (add_to k v d)) ≡ (k == j && v == w) || contains w (group j d)
  unfolding group add_to
  contains-add_to k j v w d = ground (
    arith,
    get-put k j (add_member v (group k d)) d,
    contains-add_member v w (group k d),
    o.beq_iff k j,
  )

abbrev pub mapped {ℓ κ} : {V : Type ℓ} {W : Type κ} → (V → W) → Option V → Option W
mapped f none = none
mapped f (some v) = some (f v)

module _ {ℓ κ μ} {K : Type ℓ} {V : Type κ} {W : Type μ} ⦃o : Key K⦄ (f : V → W) where
  -- `{k: f(d[k]) for k in ks}`; a key that is missing would raise, and adds nothing here.
  unfoldable pub rebuild : Dict K V → List K → Dict K W
  rebuild d [] = []
  rebuild d (k ∷ ks) =
      let rest = rebuild d ks in elim (get k d) [ none ↦ rest | some v ↦ (k, f v) ∷ rest ]

  unfoldable pub sorted_items : Dict K V → Dict K W
  unfolding rebuild
  sorted_items d = rebuild d (sorted (keys d))

  get-rebuild :
      (k : K) (d : Dict K V) (ks : List K)
      → get k (rebuild d ks) ≡ (if contains k ks then mapped f (get k d) else none)
  unfolding get rebuild contains
  get-rebuild k d [] = refl
  get-rebuild k d (j ∷ ks) = elim (Option-cases (get j d)) [
    | inl absent ↦ ground (arith, absent, o.beq_iff j k, get-rebuild k d ks)
    | inr (v, there) ↦ ground (arith, there, o.beq_iff j k, get-rebuild k d ks)
  ]

  pub get-sorted_items : (k : K) (d : Dict K V) → get k (sorted_items d) ≡ mapped f (get k d)
  unfolding sorted_items
  get-sorted_items k d =
      ground
        (arith, get-rebuild k d (sorted (keys d)), contains-sorted k (keys d), contains-keys k d)
