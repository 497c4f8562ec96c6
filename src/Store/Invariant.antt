-- ===== src/Store/Invariant.antt =====
-- What the store in memory keeps: its log, its append order and the ends of its batches agree.
use statefuse.Base.{
  append_assoc, append_nil, ℕ, String, ◌≡◌, refl, sym, ◌∙◌, ap, subst, Bool, true, false, ◌||◌, ◌<◌,
  none, some, List, [], ◌∷◌, ◌++◌, arith, if◌then◌else◌, length, length-append, eq_iff,
  Option-cases, Bool-cases, inl, inr,
}
use statefuse.Base.Dict.{get, put, get-put, or_else}
use statefuse.Base.Order.{string_key, ◌==◌}
use statefuse.Base.Sorted.{contains, IsDistinct}
use statefuse.Result.{ok, raise, >>=-eq-ok, ok-injective, collision}
use statefuse.Ops.{Op}
use statefuse.Ops.Equality.{op_eq}
use statefuse.OpLog.{OpLog, add, add_many, IsLog}
use statefuse.OpLog.Add.{add-IsLog, add_new, add_known}
use statefuse.OpLog.Batch.{add_each, add_many-returned}
use statefuse.OpLog.Lookup.{find, ids}
use statefuse.Store.{InMemoryStore, empty_store, append, append_many, chosen, close_batch}

-- Ends that ascend strictly from `previous` to `last`.
abbrev pub Ends : ℕ → List ℕ → ℕ → Type 0
Ends previous [] last = previous ≡ last
Ends previous (end ∷ ends) last = previous < end × Ends end ends last

-- The append order lists exactly the operations of the log, each once.
pub record IsListed (log : OpLog) (order : List Op) : Type 0 where
  pub finds : (id : String) → find id order ≡ get id log
  pub distinct : IsDistinct (ids order)

pub record IsStore (s : InMemoryStore) : Type 0 where
  pub log : IsLog s.oplog
  pub listed : IsListed s.oplog s.append_order
  pub ends : Ends 0 s.batch_ends (length s.append_order)

Ends-snoc : (p : ℕ) (ends : List ℕ) (m n : ℕ) → Ends p ends m → m < n → Ends p (ends ++ (n ∷ [])) n
Ends-snoc p [] m n h k = ground (arith, h, k)
Ends-snoc p (e ∷ ends) m n h k = (h.0, Ends-snoc e ends m n h.1 k)

find-snoc :
    (id : String) (order : List Op) (op : Op)
    → find id (order ++ (op ∷ []))
      ≡ or_else (find id order) (if op.op_id == id then some op else none)
unfolding find
find-snoc id [] op = ground arith
find-snoc id (x ∷ order) op = ground (arith, find-snoc id order op)

find-none : (id : String) (order : List Op) → find id order ≡ none → contains id (ids order) ≡ false
unfolding find contains
find-none id [] h = refl
find-none id (x ∷ order) h =
    ground (arith, h, eq_iff x.op_id id, eq_iff id x.op_id, find-none id order)

contains-snoc :
    (id : String) (order : List Op) (op : Op)
    → contains id (ids (order ++ (op ∷ []))) ≡ contains id (ids order) || op.op_id == id
unfolding contains
contains-snoc id [] op = ground arith
contains-snoc id (x ∷ order) op = ground (arith, contains-snoc id order op)

IsDistinct-snoc :
    (order : List Op) (op : Op)
    → IsDistinct (ids order)
    → contains op.op_id (ids order) ≡ false
    → IsDistinct (ids (order ++ (op ∷ [])))
unfolding contains
IsDistinct-snoc [] op d h = ground arith
IsDistinct-snoc (x ∷ order) op d h = ground (
  arith,
  h,
  d,
  contains-snoc x.op_id order op,
  eq_iff op.op_id x.op_id,
  eq_iff x.op_id op.op_id,
  IsDistinct-snoc order op d.1,
)

IsListed-add :
    (log : OpLog) (order : List Op) (op : Op)
    → IsListed log order
    → get op.op_id log ≡ none
    → IsListed (put op.op_id op log) (order ++ (op ∷ []))
IsListed-add log order op l fresh = record {
  finds = λ id. ground (
    arith,
    find-snoc id order op,
    l.finds id,
    get-put op.op_id id op log,
    eq_iff op.op_id id,
    fresh,
  );
  distinct =
      IsDistinct-snoc order op l.distinct (find-none op.op_id order (l.finds op.op_id ∙ fresh));
}

-- Operations in front of those that are added later.
chosen-first :
    (order ops : List Op) (op : Op) (new : Bool) (results : List Bool)
    → (order ++ chosen (op ∷ []) (new ∷ [])) ++ chosen ops results
      ≡ order ++ chosen (op ∷ ops) (new ∷ results)
unfolding chosen
chosen-first order ops op true results = append_assoc order (op ∷ []) (chosen ops results)
chosen-first order ops op false results = ap (λ o. o ++ chosen ops results) (append_nil order)

add-IsListed :
    (log : OpLog) (order : List Op) (op : Op) {r : OpLog × Bool}
    → IsListed log order
    → add log op ≡ ok r
    → IsListed r.0 (order ++ chosen (op ∷ []) (r.1 ∷ []))
unfolding chosen
add-IsListed log order op {r} l e = elim (Option-cases (get op.op_id log)) [
  | inl fresh ↦
      subst (λ q. IsListed q.0 (order ++ chosen (op ∷ []) (q.1 ∷ [])))
        (ok-injective (sym (add_new op log fresh) ∙ e)) (IsListed-add log order op l fresh)
  | inr (x, there) ↦
      subst (λ q. IsListed q.0 (order ++ chosen (op ∷ []) (q.1 ∷ [])))
        (unchanged x (sym (add_known op log x there) ∙ e))
        (subst (IsListed log) (sym (append_nil order)) l)
]
  where
    unchanged :
        (x : Op)
        → (if op_eq x op then ok (log, false) else raise (collision "op_id" op.op_id)) ≡ ok r
        → (log, false) ≡ r
    unchanged x = elim (Bool-cases (op_eq x op)) [
      | inl same ↦ rw same (λ f. ok-injective f)
      | inr other ↦ rw other (λ f. cc)
    ]

-- One `add` after the other lists what was new behind what was listed.
add_each-IsListed :
    (log : OpLog) (order ops : List Op) {r : OpLog × List Bool}
    → IsLog log
    → IsListed log order
    → add_each log ops ≡ ok r
    → IsLog r.0 × IsListed r.0 (order ++ chosen ops r.1)
unfolding add_each chosen
add_each-IsListed log order [] {r} valid l e =
    subst (λ r. IsLog r.0 × IsListed r.0 (order ++ chosen [] r.1)) (ok-injective e)
      (valid, subst (IsListed log) (sym (append_nil order)) l)
add_each-IsListed log order (op ∷ ops) {r} valid l e =
    let ((next, new), added, rest) = >>=-eq-ok (add log op) _ e in
    let ((last, results), run, made) = >>=-eq-ok (add_each next ops) _ rest in
    let (valid, l) =
      add_each-IsListed next (order ++ chosen (op ∷ []) (new ∷ [])) ops
        (add-IsLog log op valid added) (add-IsListed log order op l added) run in
    subst (λ r. IsLog r.0 × IsListed r.0 (order ++ chosen (op ∷ ops) r.1)) (ok-injective made)
      (valid, subst (IsListed last) (chosen-first order ops op new results) l)

pub empty_store-IsStore : IsStore empty_store
unfolding find get
empty_store-IsStore = record {
  log = record { is_dict = tt; keyed = λ id op e. cc };
  listed = record { finds = λ id. refl; distinct = tt };
  ends = refl;
}

-- An `append` that returns keeps the invariant: the log and the append order hold the same
-- operations, each once, and the ends of the batches ascend to the length of the order.
pub append-IsStore :
    (s : InMemoryStore) (op : Op) {r : InMemoryStore × Bool}
    → IsStore s
    → append s op ≡ ok r
    → IsStore r.0
unfolding append chosen
append-IsStore s op valid e =
    let ((log, new), added, made) = >>=-eq-ok (add s.oplog op) _ e in
    subst (λ r. IsStore r.0) (ok-injective made)
      (grown log new (add-IsLog s.oplog op valid.log added)
        (add-IsListed s.oplog s.append_order op valid.listed added))
  where
    grown :
        (log : OpLog) (new : Bool)
        → IsLog log
        → IsListed log (s.append_order ++ chosen (op ∷ []) (new ∷ []))
        → IsStore (
            if new
            then record s {
              oplog = log;
              append_order = s.append_order ++ (op ∷ []);
              batch_ends = s.batch_ends ++ (length (s.append_order ++ (op ∷ [])) ∷ []);
            }
            else record s { oplog = log })
    grown log true v l = record {
      log = v;
      listed = l;
      ends =
          Ends-snoc 0 s.batch_ends (length s.append_order) _ valid.ends
            (omega (arith, length-append s.append_order (op ∷ [])));
    }
    grown log false v l = record {
      log = v;
      listed = subst (IsListed log) (append_nil s.append_order) l;
      ends = valid.ends;
    }

close_batch-Ends :
    (ends : List ℕ) (order added : List Op)
    → Ends 0 ends (length order)
    → Ends 0 (close_batch ends added (length (order ++ added))) (length (order ++ added))
unfolding close_batch
close_batch-Ends ends order [] h = subst (λ o. Ends 0 ends (length o)) (sym (append_nil order)) h
close_batch-Ends ends order (op ∷ added) h =
    Ends-snoc 0 ends (length order) _ h (omega (arith, length-append order (op ∷ added)))

add_many-IsListed :
    (log : OpLog) (order ops : List Op) {r : OpLog × List Bool}
    → IsLog log
    → IsListed log order
    → add_many log ops ≡ ok r
    → IsLog r.0 × IsListed r.0 (order ++ chosen ops r.1)
add_many-IsListed log order ops {r} valid l e =
    let (dict, (seq, run, same)) = add_many-returned log ops valid.is_dict e in
    let (v, listed) = add_each-IsListed log order ops valid l run in
    (
      record { is_dict = dict; keyed = λ id op there. v.keyed id op (sym (same id) ∙ there) },
      record { finds = λ id. listed.finds id ∙ sym (same id); distinct = listed.distinct },
    )

-- An `append_many` that returns keeps the invariant: the log and the append order hold the same
-- operations, each once, and the ends of the batches ascend to the length of the order.
pub append_many-IsStore :
    (s : InMemoryStore) (ops : List Op) {r : InMemoryStore × List Bool}
    → IsStore s
    → append_many s ops ≡ ok r
    → IsStore r.0
unfolding append_many
append_many-IsStore s ops valid e =
    let ((log, results), added, made) = >>=-eq-ok (add_many s.oplog ops) _ e in
    let (v, l) = add_many-IsListed s.oplog s.append_order ops valid.log valid.listed added in
    subst (λ r. IsStore r.0) (ok-injective made)
      (record {
        log = v;
        listed = l;
        ends = close_batch-Ends s.batch_ends s.append_order (chosen ops results) valid.ends;
      })
