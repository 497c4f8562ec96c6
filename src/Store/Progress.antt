-- ===== src/Store/Progress.antt =====
-- The replica progress that the store in memory keeps for each peer.
use statefuse.Base.{String, ◌≡◌, refl, false, none, some, [], arith, if◌then◌else◌, eq_iff}
use text.Mathlib.Text.{◌==◌}
use statefuse.Base.Dict.{get, IsDict, get-put, get-pop}
use statefuse.Base.Order.{string_key}
use statefuse.Base.Sorted.{sorted}
use statefuse.Result.{ok}
use statefuse.Replica.{ReplicaProgress, post_init}
use statefuse.Store.{
  InMemoryStore, load_replica_progress, save_replica_progress, reset_replica_progress,
}

abbrev pub fresh : String → ReplicaProgress
fresh peer = record { peer_replica_id = peer; cursor = 0; pending_ranges = [] }

module _ (s : InMemoryStore) (peer : String) (named : (peer == "") ≡ false) where
  -- The progress of a peer is what the store holds for it, and nothing received where it holds
  -- none.
  load-get :
      load_replica_progress s peer
      ≡ ok (elim (get peer s.replica_progress) [ none ↦ fresh peer | some p ↦ p ])
  unfolding load_replica_progress post_init sorted
  load-get = rw named refl

  -- After a save, a load under a name that is not empty returns the saved progress if it is of that
  -- peer, and otherwise what it returned before.
  pub load-save :
      (p : ReplicaProgress)
      → load_replica_progress (save_replica_progress s p) peer
        ≡ (if p.peer_replica_id == peer then ok p else load_replica_progress s peer)
  unfolding load_replica_progress save_replica_progress post_init
  load-save p = ground (
    arith,
    named,
    get-put p.peer_replica_id peer p s.replica_progress,
    eq_iff p.peer_replica_id peer,
  )

  -- After a reset, a load under a name that is not empty returns a progress with nothing received
  -- if the reset was of that peer, and otherwise what it returned before.
  pub load-reset :
      (other : String)
      → IsDict s.replica_progress
      → load_replica_progress (reset_replica_progress s other) peer
        ≡ (if other == peer then ok (fresh peer) else load_replica_progress s peer)
  unfolding load_replica_progress reset_replica_progress post_init sorted
  load-reset other dict =
      ground (arith, named, get-pop other peer s.replica_progress dict, eq_iff other peer)
