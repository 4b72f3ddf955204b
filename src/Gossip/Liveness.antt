-- ===== src/Gossip/Liveness.antt =====
-- pkg/gossip/state.go: expiry and liveness. One reading of the clock serves a whole call.
use pico.Prelude.{
  ℕ, ◌+◌, GoString, GoMap, delete, values, Bool, true, false, List, [], ◌∷◌, ◌++◌, Option, some,
  ite, str_dec, ltb, ◌==◌, ◌&&◌, not, if◌then◌else◌, ◌>>=◌,
}
use pico.Gossip.Types.{
  Time, NodeState, Effect, event, gauge, delete_partial_match, on_expired, on_reachable,
  on_unreachable, node_expiry,
}
use pico.Gossip.Detector.{FailureDetector, suspicion_level, exceeds, remove_window}
use pico.Gossip.State.{ClusterState, Outcome}

-- `!state.Expiry.IsZero() && t.After(state.Expiry)`
unfoldable pub is_expired : Time → NodeState → Bool
is_expired t n = not (n.expiry == 0) && ltb n.expiry t

-- The first loop of `RemoveExpiredAt`.
unfoldable pub expired_ids : Time → List NodeState → List GoString
unfolding is_expired
expired_ids t [] = []
expired_ids t (n ∷ ns) = let rest = expired_ids t ns in if is_expired t n then n.id ∷ rest else rest

-- The second loop.
unfoldable pub remove_nodes : ClusterState → List GoString → ClusterState × List Effect
remove_nodes s [] = (s, [])
remove_nodes s (id ∷ ids) =
    let (s', effects) =
      remove_nodes
        (record s {
          nodes = delete id s.nodes;
          failure_detector = remove_window s.failure_detector id;
        })
        ids in
    (s', gauge (delete_partial_match id) ∷ event (on_expired id) ∷ effects)

-- `RemoveExpiredAt`
unfoldable pub remove_expired_at : ClusterState → Time → ClusterState × List Effect
unfolding expired_ids remove_nodes
remove_expired_at s t = remove_nodes s (expired_ids t (values s.nodes))

-- The body of the loop of `UpdateLiveness` once the suspicion is known.
unfoldable pub set_liveness : NodeState → Time → Bool → NodeState × List Effect
set_liveness n now suspected =
    if suspected
    then (if n.unreachable then (n, []) else (
      record n { metadata = record n.metadata { unreachable = true; expiry = now + node_expiry } },
      event (on_unreachable n.id) ∷ [],
    ))
    else (if n.unreachable
        then (
          record n { metadata = record n.metadata { unreachable = false; expiry = 0 } },
          event (on_reachable n.id) ∷ [],
        )
        else (n, []))

-- The test that leaves a node out: it is the local one, or has left.
abbrev pub is_skipped : GoString → NodeState → Bool
is_skipped local_id n = ite (str_dec n.id local_id) true n.left

-- One round, on a node that is not skipped; the detector may open a window, and may panic.
abbrev pub liveness_round :
    FailureDetector → ℕ → Time → NodeState → Option (FailureDetector × NodeState × List Effect)
liveness_round d threshold now n = do
  (d', level) ← suspicion_level d n.id now
  let (n', effects) = set_liveness n now (exceeds level threshold)
  some (d', n', effects)

-- The loop over the map.
unfoldable pub update_nodes :
    GoString
    → FailureDetector
    → ℕ
    → Time
    → GoMap NodeState
    → Option (FailureDetector × GoMap NodeState × List Effect)
unfolding set_liveness
update_nodes local_id d threshold now [] = some (d, [], [])
update_nodes local_id d threshold now ((k, n) ∷ m) = do
  (d', n', effects) ←
      if is_skipped local_id n then some (d, n, []) else liveness_round d threshold now n
  (d'', m', effects') ← update_nodes local_id d' threshold now m
  some (d'', (k, n') ∷ m', effects ++ effects')

-- `UpdateLiveness`
unfoldable pub update_liveness : ClusterState → ℕ → Time → Outcome
unfolding update_nodes
update_liveness s threshold now = do
  (d, nodes, effects) ← update_nodes s.local_id s.failure_detector threshold now s.nodes
  some (record s { nodes = nodes; failure_detector = d }, effects)
