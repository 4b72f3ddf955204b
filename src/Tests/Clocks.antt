-- ===== src/Tests/Clocks.antt =====
-- Expiry and the failure detector, at given times.
use pico.Prelude.{
  ℕ, min, List, GoString, ◌≡◌, ◌%◌, ◌^◌, refl, codes, lookup, [], ◌∷◌, some, arith, true, length,
}
use pico.Gossip.Types.{Effect, NodeState, new_metadata}
use pico.Gossip.State.{ClusterState}
use pico.Gossip.Detector.{ArrivalIntervals, new_arrival_intervals}
use pico.Gossip.Suspicion.{IsReady}
use pico.Gossip.Decided.{IsDecided, update_liveness_lem}
use pico.Gossip.Liveness.{update_liveness, remove_expired_at}
use pico.Gossip.Expiry.{still_there, lookup-remove_expired_at}
use pico.Gossip.Windows.{total}
use pico.Gossip.Samples.{newest, add_all, add_all-mean}

abbrev gone : NodeState
gone = record {
  metadata = record (new_metadata (codes "b") (codes "b:7000")) { unreachable = true; expiry = 50 };
  entries = [];
}

abbrev state : ClusterState
state = record {
  local_id = codes "a";
  nodes = (codes "b", gone) ∷ [];
  failure_detector = record { windows = []; bootstrap_interval = 1; sample_size = 10 };
}

lookup-remove_expired_at_example :
    lookup (codes "b") (remove_expired_at state 60).0.nodes
    ≡ still_there 60 (lookup (codes "b") state.nodes)
unfolding lookup
lookup-remove_expired_at_example =
    lookup-remove_expired_at state 60 (codes "b") (λ k n h. ground arith) (refl, tt)

add_all-mean_example :
    (i : ArrivalIntervals) × (add_all (new_arrival_intervals 2) (9 ∷ 5 ∷ 7 ∷ []) ≡ some i)
    × (i.mean ≡ record {
      total = total (newest 2 (9 ∷ 5 ∷ 7 ∷ [])) % 2 ^ 64;
      count = min 2 (length {A = ℕ} (9 ∷ 5 ∷ 7 ∷ []));
    })
add_all-mean_example =
    add_all-mean 2 9 (5 ∷ 7 ∷ []) (omega arith) (omega arith, (omega arith, (omega arith, tt)))

detector-IsReady : IsReady state.failure_detector
unfolding lookup
detector-IsReady = record { sampled = λ id w h. cc; bootstrap = refl; room = omega arith }

update_liveness_lem_example :
    (s' : ClusterState) × (effects : List Effect) × (update_liveness state 8 40
      ≡ some (s', effects))
    × IsReady s'.failure_detector
    × ((k : GoString) (n : NodeState)
        → lookup k state.nodes ≡ some n
        → (n' : NodeState) × (lookup k s'.nodes ≡ some n')
          × IsDecided (codes "a") 8 40 state.failure_detector s'.failure_detector n n')
update_liveness_lem_example = update_liveness_lem state 8 40 detector-IsReady (omega arith)
