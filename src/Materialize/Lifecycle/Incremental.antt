-- ===== src/Materialize/Lifecycle/Incremental.antt =====
-- A new resolution, taken in by `_append_resolution_history` and
-- `_replace_lifecycle_fold_for_ref`, against the fold of everything.
use statefuse.Base.{
  String, ◌≡◌, refl, sym, ◌∙◌, ap, subst, Bool, true, false, not, Option, none, some, List, [], ◌∷◌,
  if◌then◌else◌, arith, inl, inr, Bool-cases, All, All-append, eq_iff,
}
use statefuse.Base.Dict.{Dict, get, put, get-put}
use statefuse.Base.Order.{string_key, nat_key, pair_key, option_key, ◌==◌}
use statefuse.Result.{Result, ok, ◌>>=◌, >>=_same, >>=-eq-ok, ok-injective}
use statefuse.Host.{Host, parse_utc_iso}
use statefuse.Model.Resolution.{ResolutionRecord}
use statefuse.Model.Lifecycle.{ConflictLifecycleEvent}
use statefuse.Materialize.Lifecycle.{
  Item, Entry, resolution, event, LaneState, resolution_applies, resolution_entries, event_entries,
  apply_item, apply_event, run_timeline, answers, without_resolution, resolve,
}

-- An event of another conflict than that of the resolution.
abbrev pub Apart : ResolutionRecord → Item → Type 0
Apart r (resolution x) = Unit
Apart r (event e) = (r.conflict_ref == e.conflict_ref) ≡ false

module _ (h : Host) (at : Option String) where
  abbrev pub settle_named : ConflictLifecycleEvent → Option ResolutionRecord → Result LaneState
  settle_named e o = elim o [
    | none ↦ ok (without_resolution "open")
    | some r ↦ if not (answers r e) then ok (without_resolution "open") else (do
      applies ← resolution_applies h at r
      ok (if applies then resolve r else without_resolution "open"))
  ]

  not_named :
      (r : ResolutionRecord) (e : ConflictLifecycleEvent)
      → (r.conflict_ref == e.conflict_ref) ≡ false
      → settle_named e (some r) ≡ settle_named e none
  not_named r e apart = ground (arith, apart)

  -- The new resolution answers no event of another conflict.
  apply_event-put :
      (by_id : Dict String ResolutionRecord) (r : ResolutionRecord) (e : ConflictLifecycleEvent)
      → get r.resolution_id by_id ≡ none
      → (r.conflict_ref == e.conflict_ref) ≡ false
      → apply_event h at (put r.resolution_id r by_id) e ≡ apply_event h at by_id e
  unfolding apply_event
  apply_event-put by_id r e new apart =
      ap (λ x. if not (e.status == "resolved") then ok (without_resolution e.status) else x)
        (go (elim e.resolution_id [ none ↦ "" | some id ↦ id ]))
    where
      go :
          (id : String)
          → settle_named e (get id (put r.resolution_id r by_id)) ≡ settle_named e (get id by_id)
      go id =
          ap (settle_named e) (get-put r.resolution_id id r by_id)
          ∙ elim (Bool-cases (r.resolution_id == id)) [
            | inl own ↦
                ap (λ b. settle_named e (if b then some r else get id by_id)) own
                ∙ not_named r e apart
                ∙ ap (settle_named e)
                    (sym (ap (λ x. get x by_id) (sym ((eq_iff r.resolution_id id).0 own)) ∙ new))
            | inr other ↦ ap (λ b. settle_named e (if b then some r else get id by_id)) other
          ]

  pub run_timeline-put :
      (by_id : Dict String ResolutionRecord) (r : ResolutionRecord) (s : LaneState) (l : List Entry)
      → get r.resolution_id by_id ≡ none
      → All (λ x. Apart r x.1) l
      → run_timeline h at (put r.resolution_id r by_id) s l ≡ run_timeline h at by_id s l
  unfolding run_timeline apply_item
  run_timeline-put by_id r s [] new apart = refl
  run_timeline-put by_id r s ((_, resolution x) ∷ l) new apart =
      run_timeline-put by_id r (resolve x) l new apart.1
  run_timeline-put by_id r s ((_, event e) ∷ l) new apart =
      ap (λ m. m >>= λ next. run_timeline h at (put r.resolution_id r by_id) next l)
        (apply_event-put by_id r e new apart.0)
      ∙ >>=_same (apply_event h at by_id e) _ _
          (λ next. run_timeline-put by_id r next l new apart.1)

  pub resolution_entries-Apart :
      (r : ResolutionRecord) (l : List ResolutionRecord) {es : List Entry}
      → resolution_entries h at l ≡ ok es
      → All (λ x. Apart r x.1) es
  unfolding resolution_entries
  resolution_entries-Apart r [] done = subst (All (λ x. Apart r x.1)) (ok-injective done) tt
  resolution_entries-Apart r (x ∷ l) done =
      let (b, _, next) = >>=-eq-ok (resolution_applies h at x) _ done in
      let (entry, made, rest) = >>=-eq-ok (entry_of x b) _ next in
      let (es, later, all_made) = >>=-eq-ok (resolution_entries h at l) _ rest in
      subst (All (λ y. Apart r y.1)) (ok-injective all_made)
        (All-append (λ y. Apart r y.1) entry es (one x b made) (resolution_entries-Apart r l later))
    where
      entry_of : ResolutionRecord → Bool → Result (List Entry)
      entry_of x b =
          if b
          then (do
            t ← parse_utc_iso h x.timestamp
            ok ((((t, 0), x.resolution_id), resolution x) ∷ []))
          else ok []

      one :
          (x : ResolutionRecord) (b : Bool) {entry : List Entry}
          → entry_of x b ≡ ok entry
          → All (λ y. Apart r y.1) entry
      one x false made = subst (All (λ y. Apart r y.1)) (ok-injective made) tt
      one x true made =
          let (t, _, rest) = >>=-eq-ok (parse_utc_iso h x.timestamp) _ made in
          subst (All (λ y. Apart r y.1)) (ok-injective rest) (tt, tt)

pub event_entries-Apart :
    (h : Host) (r : ResolutionRecord) (l : List ConflictLifecycleEvent) {es : List Entry}
    → All (λ e. (r.conflict_ref == e.conflict_ref) ≡ false) l
    → event_entries h l ≡ ok es
    → All (λ x. Apart r x.1) es
unfolding event_entries
event_entries-Apart h r [] apart done = subst (All (λ x. Apart r x.1)) (ok-injective done) tt
event_entries-Apart h r (e ∷ l) apart done =
    let (t, _, next) = >>=-eq-ok (parse_utc_iso h e.timestamp) _ done in
    let (es, later, made) = >>=-eq-ok (event_entries h l) _ next in
    subst (All (λ x. Apart r x.1)) (ok-injective made)
      (apart.0, event_entries-Apart h r l apart.1 later)
