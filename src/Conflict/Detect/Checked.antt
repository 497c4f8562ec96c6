-- ===== src/Conflict/Detect/Checked.antt =====
-- What the checks of `run_conflict_detectors` let through.
use text.Mathlib.Text.{◌==◌}
use statefuse.Base.{
  String, ◌≡◌, refl, sym, ◌∙◌, ap, subst, Bool, true, false, not, Option, none, some, List, [], ◌∷◌,
  ◌++◌, arith, if◌then◌else◌, all, In, inl, inr, eq_iff, Bool-cases,
}
use statefuse.Base.Dict.{get, put, get-put, get-put_self}
use statefuse.Base.Order.{string_key}
use statefuse.Base.Elements.{In-in_order}
use statefuse.Result.{Error, collision, Result, ok, raise, >>=-eq-ok, ok-injective}
use statefuse.Host.{Host}
use statefuse.Conflict.Identity.{ConflictSet}
use statefuse.Conflict.Direct.{direct_conflicts}
use statefuse.Conflict.Detect.{
  DetectionContext, Detector, Findings, is_active, is_canonical, conflict_eq, taken, file_new,
  file_conflict, file_all, run_all, run_conflict_detectors,
}

-- A branch that does not raise was taken with its test.
passed :
    {A : Type 0} (bad : Bool) (e : Error) (rest : Result A) {a : A}
    → (if bad then raise e else rest) ≡ ok a
    → (bad ≡ false) × (rest ≡ ok a)
passed true e rest q = absurd cc
passed false e rest q = (refl, q)

some_injective : {A : Type 0} {a b : A} → some a ≡ some b → a ≡ b
some_injective q = cc

module _ (h : Host) (context : DetectionContext) where
  -- Its claims are active and unmodified, and its identities are canonical.
  abbrev pub IsSound : ConflictSet → Type 0
  IsSound c = (all (is_active context) c.candidates ≡ true) × (is_canonical h c ≡ true)

  -- A filed conflict is sound, stands under its identifier, and its reference leads to it.
  abbrev IsFiled : Findings → Type 0
  IsFiled f =
      (id : String) (c : ConflictSet)
      → get id f.by_id ≡ some c
      → (c.conflict_id ≡ id) × IsSound c × (get c.conflict_ref f.refs ≡ some id)

  new-IsFiled :
      (f : Findings) (c : ConflictSet)
      → IsFiled f
      → IsSound c
      → get c.conflict_id f.by_id ≡ none
      → taken (get c.conflict_ref f.refs) c.conflict_id ≡ false
      → IsFiled (record {
        by_id = put c.conflict_id c f.by_id;
        refs = put c.conflict_ref c.conflict_id f.refs;
      })
  new-IsFiled f c filed sound fresh free id d there = elim (Bool-cases (c.conflict_id == id)) [
    | inl same ↦ here id d ((eq_iff c.conflict_id id).0 same) (stored same)
    | inr other ↦ let old = filed id d (kept other) in (old.0, old.1, later old.2 other)
  ]
    where
      stored : (c.conflict_id == id) ≡ true → c ≡ d
      stored same = ground (arith, there, get-put c.conflict_id id c f.by_id, same)

      kept : (c.conflict_id == id) ≡ false → get id f.by_id ≡ some d
      kept other = ground (arith, there, get-put c.conflict_id id c f.by_id, other)

      later :
          get d.conflict_ref f.refs ≡ some id
          → (c.conflict_id == id) ≡ false
          → get d.conflict_ref (put c.conflict_ref c.conflict_id f.refs) ≡ some id
      later old other = ground (
        arith,
        old,
        other,
        free,
        get-put c.conflict_ref d.conflict_ref c.conflict_id f.refs,
        eq_iff c.conflict_ref d.conflict_ref,
        eq_iff c.conflict_id id,
        eq_iff id c.conflict_id,
      )

      here :
          (j : String) (x : ConflictSet)
          → c.conflict_id ≡ j
          → c ≡ x
          → (x.conflict_id ≡ j)
            × IsSound x
            × (get x.conflict_ref (put c.conflict_ref c.conflict_id f.refs) ≡ some j)
      here j x p q =
          subst
            (λ z.
              (z.conflict_id ≡ j)
              × IsSound z
              × (get z.conflict_ref (put c.conflict_ref c.conflict_id f.refs) ≡ some j))
            q (p, sound, get-put_self c.conflict_ref c.conflict_id f.refs ∙ ap some p)

  file_new-IsFiled :
      (f : Findings) (c : ConflictSet) {g : Findings}
      → IsFiled f
      → IsSound c
      → get c.conflict_id f.by_id ≡ none
      → file_new f c ≡ ok g
      → IsFiled g
  unfolding file_new
  file_new-IsFiled f c filed sound fresh e =
      let (free, made) = passed (taken (get c.conflict_ref f.refs) c.conflict_id) _ _ e in
      subst IsFiled (ok-injective made) (new-IsFiled f c filed sound fresh free)

  known :
      (f : Findings) (c old : ConflictSet) {g : Findings}
      → (if conflict_eq old c then ok f else raise (collision "conflict_id" c.conflict_id)) ≡ ok g
      → f ≡ g
  known f c old = elim (Bool-cases (conflict_eq old c)) [
    | inl same ↦ rw same (λ q. ok-injective q)
    | inr other ↦ rw other (λ q. absurd cc)
  ]

  file_conflict-IsFiled :
      (f : Findings) (c : ConflictSet) {g : Findings}
      → IsFiled f
      → file_conflict h context f c ≡ ok g
      → IsFiled g
  unfolding file_conflict
  file_conflict-IsFiled f c {g} filed e =
      let (active, rest) = passed (not (all (is_active context) c.candidates)) _ _ e in
      let (canonical, rest) = passed (not (is_canonical h c)) _ _ rest in
      filed_by (get c.conflict_id f.by_id) refl (ground (arith, active), ground (arith, canonical))
        rest
    where
      filed_by :
          (o : Option ConflictSet)
          → get c.conflict_id f.by_id ≡ o
          → IsSound c
          → (elim o [
            | some old ↦
                if conflict_eq old c then ok f else raise (collision "conflict_id" c.conflict_id)
            | none ↦ file_new f c
          ])
            ≡ ok g
          → IsFiled g
      filed_by none fresh sound q = file_new-IsFiled f c filed sound fresh q
      filed_by (some old) there sound q = subst IsFiled (known f c old q) filed

  file_all-IsFiled :
      (f : Findings) (conflicts : List ConflictSet) {g : Findings}
      → IsFiled f
      → file_all h context f conflicts ≡ ok g
      → IsFiled g
  unfolding file_all
  file_all-IsFiled f [] filed e = subst IsFiled (ok-injective e) filed
  file_all-IsFiled f (c ∷ conflicts) filed e =
      let (next, one, rest) = >>=-eq-ok (file_conflict h context f c) _ e in
      file_all-IsFiled next conflicts (file_conflict-IsFiled f c filed one) rest

  nothing-IsFiled : IsFiled (record { by_id = []; refs = [] })
  unfolding get
  nothing-IsFiled id c there = absurd cc

  -- The conflicts that `run_conflict_detectors` returns name only claims that are active and
  -- unmodified, have the identities that are derived from them, and no two of them have the same
  -- reference.
  pub run_conflict_detectors-IsSound :
      (detectors : List Detector) (found : List ConflictSet)
      → run_conflict_detectors h context detectors ≡ ok found
      → ((c : ConflictSet) → In c found → IsSound c)
        × ((c d : ConflictSet) → In c found → In d found → c.conflict_ref ≡ d.conflict_ref → c ≡ d)
  unfolding run_conflict_detectors
  run_conflict_detectors-IsSound detectors found e =
      let (direct, scanned, rest) =
        >>=-eq-ok
          (direct_conflicts h context.predicate_registry context.records
            context.active_claims_by_key)
          _ e in
      let (reported, ran, rest) = >>=-eq-ok (run_all context detectors) _ rest in
      let (f, filing, made) = >>=-eq-ok (file_all h context _ (direct ++ reported)) _ rest in
      let filed = file_all-IsFiled _ (direct ++ reported) nothing-IsFiled filing in
      subst
        (λ l.
          ((c : ConflictSet) → In c l → IsSound c)
          × ((c d : ConflictSet) → In c l → In d l → c.conflict_ref ≡ d.conflict_ref → c ≡ d))
        (ok-injective made)
        (
          λ c inside. let (id, there) = In-in_order f.by_id c inside in (filed id c there).1,
          λ c d in_c in_d same.
              let (i, at_i) = In-in_order f.by_id c in_c in
              let (j, at_j) = In-in_order f.by_id d in_d in
              one_reference f filed i j c d at_i at_j same,
        )
    where
      one_reference :
          (f : Findings)
          → IsFiled f
          → (i j : String) (c d : ConflictSet) → get i f.by_id ≡ some c
          → get j f.by_id ≡ some d
          → c.conflict_ref ≡ d.conflict_ref
          → c ≡ d
      one_reference f filed i j c d at_i at_j same =
          let ref_i = (filed i c at_i).2 in
          let ref_j = (filed j d at_j).2 in
          let ids : i ≡ j = some_injective (sym ref_i ∙ ap (λ r. get r f.refs) same ∙ ref_j) in
          some_injective (sym at_i ∙ ap (λ k. get k f.by_id) ids ∙ at_j)
