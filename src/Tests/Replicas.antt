-- ===== src/Tests/Replicas.antt =====
-- The theorems on replica progress and deltas at small ranges.
use statefuse.Base.{ℕ, ◌≡◌, refl, ◌||◌, [], ◌∷◌, arith}
use statefuse.Base.Int.{pos}
use statefuse.Result.{ok}
use statefuse.Replica.{ReplicaProgress, advance_replica_progress}
use statefuse.Replica.Cover.{IsNormal, covered, within, advance-covers}
use statefuse.Replica.Normal.{advance_twice, advance_comm}
use statefuse.Replica.Batches.{ReplicaDelta, delta_post_init}
use statefuse.Tests.Data.{one, two, three}

-- Everything below 3 and from 5 up to 7 was received.
abbrev progress : ReplicaProgress
progress = record { peer_replica_id = "beta"; cursor = 3; pending_ranges = (5, 7) ∷ [] }

progress-IsNormal : IsNormal progress
progress-IsNormal = record { named = λ e. cc; gapped = (omega arith, omega arith, tt) }

advance-covers_example :
    (q : ReplicaProgress) × (advance_replica_progress progress (pos 2) (pos 5) ≡ ok q)
    × IsNormal q
    × ((x : ℕ) → covered q x ≡ covered progress x || within x (2, 5))
    × (q.peer_replica_id ≡ "beta")
advance-covers_example = advance-covers progress 2 5 progress-IsNormal (omega arith)

advance_comm_example : advance_twice progress 9 12 3 5 ≡ advance_twice progress 3 5 9 12
advance_comm_example = advance_comm progress 9 12 3 5 progress-IsNormal (omega arith) (omega arith)

abbrev delta : ReplicaDelta
delta = record {
  sender_replica_id = "alpha";
  cursor_before = pos 4;
  cursor_after = pos 7;
  ops = one ∷ two ∷ three ∷ [];
  batch_sizes = 2 ∷ 1 ∷ [];
}

delta_made : delta_post_init delta ≡ ok delta
unfolding delta_post_init
delta_made = refl
