-- ===== src/Store/Jsonl/ReadBack.antt =====
-- What an appended batch is read back as.
use statefuse.Base.{
  String, ◌≡◌, refl, sym, ◌∙◌, ap, subst, Bool, false, none, some, List, [], ◌∷◌, ◌++◌, arith,
  eq_iff,
}
use statefuse.Base.Int.{ℤ, pos}
use statefuse.Base.Dict.{get, put, get-put, or_else}
use statefuse.Base.Order.{string_key}
use statefuse.Base.Sorted.{in_order, contains, IsDistinct}
use statefuse.Json.{int, float, str, to_items, from_fields-to_fields}
use statefuse.Json.Equality.{json_eq_refl}
use statefuse.Result.{Result, ok, raise, ◌>>=◌, >>=-eq-ok, ok-injective}
use statefuse.Host.{Host}
use statefuse.Ops
use statefuse.Ops.{Op}
use statefuse.Ops.RoundTrip.{from_dict-to_dict_op}
use statefuse.OpLog.{OpLog, IsLog, add_all}
use statefuse.OpLog.Add.{get-add_all, add_all-IsLog}
use statefuse.OpLog.Lookup.{find, ids, find-iter_ops, iter_ops-IsDistinct}
use statefuse.Store.Jsonl.{
  Lines, decode_ops, decode_jsonl_batch, encode_batch, written_ops, line_ops, see_lines, sort_out,
  write_batch, append_many, by_op_id, iter_ops,
}
use statefuse.Store.Jsonl.SortOut.{
  AreBodies, sort_out-add_all, sort_out-AreBodies, add_all-SameLookups,
}

module _ (h : Host) (same : (s : String) → h.to_str (str s) ≡ s)
    (same_float : (x : ℤ) → h.to_float (float x) ≡ some x) where
  decode_written :
      (ops : List Op) → AreBodies h ops → decode_ops h (to_items (written_ops ops)) ≡ ok ops
  unfolding decode_ops
  decode_written [] v = refl
  decode_written (op ∷ ops) v = rw (
    from_fields-to_fields (Ops.to_dict op),
    from_dict-to_dict_op h same same_float op v.0,
    decode_written ops v.1,
  )

  -- A batch that is not empty, of operations that came out of their constructors, is decoded as it
  -- was encoded, if `str` leaves texts alone and `float` floats.
  pub decode-encode_batch :
      (op : Op) (ops : List Op)
      → AreBodies h (op ∷ ops)
      → decode_jsonl_batch h (encode_batch (op ∷ ops)) ≡ ok (op ∷ ops)
  unfolding decode_jsonl_batch encode_batch
  decode-encode_batch op ops v = rw (json_eq_refl (int (pos 1)), decode_written (op ∷ ops) v)

see_lines-append :
    (h : Host) (seen : OpLog) (lines more : Lines)
    → see_lines h seen (lines ++ more) ≡ (see_lines h seen lines >>= λ s. see_lines h s more)
unfolding see_lines
see_lines-append h seen [] more = refl
see_lines-append h seen (line ∷ lines) more =
    step (add_all seen (line_ops h line)) (λ n. see_lines-append h n lines more)
  where
    step :
        (r : Result OpLog)
        → ((n : OpLog)
            → see_lines h n (lines ++ more) ≡ (see_lines h n lines >>= λ s. see_lines h s more))
        → (r >>= λ n. see_lines h n (lines ++ more))
          ≡ ((r >>= λ n. see_lines h n lines) >>= λ s. see_lines h s more)
    step (raise e) rest = refl
    step (ok n) rest = rest n

see_lines-IsLog :
    (h : Host) (seen : OpLog) (lines : Lines) {m : OpLog}
    → IsLog seen
    → see_lines h seen lines ≡ ok m
    → IsLog m
unfolding see_lines
see_lines-IsLog h seen [] v e = subst IsLog (ok-injective e) v
see_lines-IsLog h seen (line ∷ lines) v e =
    let (next, one, rest) = >>=-eq-ok (add_all seen (line_ops h line)) _ e in
    see_lines-IsLog h next lines (add_all-IsLog seen (line_ops h line) v one) rest

find-absent : (id : String) (ops : List Op) → contains id (ids ops) ≡ false → find id ops ≡ none
unfolding find contains
find-absent id [] h = refl
find-absent id (op ∷ ops) h = ground (arith, h, find-absent id ops)

get-by_op_id :
    (id : String) (d : OpLog) (ops : List Op)
    → IsDistinct (ids ops)
    → get id (by_op_id d ops) ≡ or_else (find id ops) (get id d)
unfolding by_op_id find
get-by_op_id id d [] v = refl
get-by_op_id id d (op ∷ ops) v = ground (
  arith,
  get-by_op_id id (put op.op_id op d) ops v.1,
  get-put op.op_id id op d,
  find-absent op.op_id ops v.0,
  eq_iff op.op_id id,
)

bind-ok : (m : Result OpLog) → (m >>= λ s. ok s) ≡ m
bind-ok (ok s) = refl
bind-ok (raise e) = refl

bind-ext :
    (m : Result OpLog) (f g : OpLog → Result OpLog)
    → ((s : OpLog) → f s ≡ g s)
    → (m >>= f) ≡ (m >>= g)
bind-ext (ok s) f g same = same s
bind-ext (raise e) f g same = refl

nothing_seen : IsLog []
unfolding get
nothing_seen = record { is_dict = tt; keyed = λ id op there. cc }

listed-SameLookups :
    (seen : OpLog) → IsLog seen → (id : String) → get id (by_op_id [] (in_order seen)) ≡ get id seen
unfolding get
listed-SameLookups seen v id = ground (
  arith,
  get-by_op_id id [] (in_order seen) (iter_ops-IsDistinct seen v),
  find-iter_ops seen v id,
)

module _ (h : Host) (same : (s : String) → h.to_str (str s) ≡ s)
    (same_float : (x : ℤ) → h.to_float (float x) ≡ some x) where
  line_written :
      (op : Op) (added : List Op)
      → AreBodies h (op ∷ added)
      → line_ops h (some (encode_batch (op ∷ added))) ≡ op ∷ added
  unfolding line_ops
  line_written op added v = ap decoded_ops (decode-encode_batch h same same_float op added v)
    where
      decoded_ops : Result (List Op) → List Op
      decoded_ops (ok ops) = ops
      decoded_ops (raise e) = []

  see_written :
      (lines : Lines) (added : List Op)
      → AreBodies h added
      → see_lines h [] (write_batch lines added) ≡ (see_lines h [] lines >>= λ s. add_all s added)
  unfolding write_batch see_lines add_all
  see_written lines [] v = sym (bind-ok (see_lines h [] lines))
  see_written lines (op ∷ added) v =
      see_lines-append h [] lines (some (encode_batch (op ∷ added)) ∷ [])
      ∙ bind-ext (see_lines h [] lines) _ _ λ s.
        bind-ok (add_all s (line_ops h (some (encode_batch (op ∷ added)))))
        ∙ ap (add_all s) (line_written op added v)

  -- If `append_many` to a JSON-lines file returns, the old and the new file are read without an
  -- error, and the new one holds under each identifier what the old one held, or else the first of
  -- the appended operations with that identifier. The operations came out of their constructors,
  -- `str` leaves texts alone and `float` floats.
  pub append_many-read_back :
      (lines : Lines) (ops : List Op) (r : Lines × List Bool)
      → AreBodies h ops
      → append_many h lines ops ≡ ok r
      → (seen : OpLog) × (read : OpLog) × (see_lines h [] lines ≡ ok seen)
        × (see_lines h [] r.0 ≡ ok read)
        × ((id : String) → get id read ≡ or_else (get id seen) (find id ops))
  unfolding append_many iter_ops
  append_many-read_back lines ops r v e =
      let (stored, listed, rest) = >>=-eq-ok (iter_ops h lines) _ e in
      let (seen, reading, made) = >>=-eq-ok (see_lines h [] lines) _ listed in
      let (out, sorting, written) = >>=-eq-ok (sort_out (by_op_id [] stored) ops) _ rest in
      let valid = see_lines-IsLog h [] lines nothing_seen reading in
      let agree : ((id : String) → get id (by_op_id [] stored) ≡ get id seen) = λ id.
        ap (λ l. get id (by_op_id [] l)) (sym (ok-injective made))
        ∙ listed-SameLookups seen valid id in
      let (last, all, added) = sort_out-add_all (by_op_id [] stored) ops sorting in
      let (read, adding) = add_all-SameLookups (by_op_id [] stored) seen out.0 agree added in
      (
        seen,
        read,
        reading,
        ap (λ q. see_lines h [] q.0) (sym (ok-injective written))
            ∙ see_written lines out.0 (sort_out-AreBodies h (by_op_id [] stored) ops v sorting)
            ∙ ap (λ q. q >>= λ s. add_all s out.0) reading
            ∙ adding,
        λ id.
            get-add_all id seen out.0 adding
            ∙ ap (λ g. or_else g (find id out.0)) (sym (agree id))
            ∙ sym (get-add_all id (by_op_id [] stored) out.0 added)
            ∙ get-add_all id (by_op_id [] stored) ops all
            ∙ ap (λ g. or_else g (find id ops)) (agree id),
      )
