-- ===== src/Gossip/State.antt =====
-- pkg/gossip/state.go: the cluster state, and what reads it.
use pico.Prelude.{
  GoString, GoMap, lookup, insert, values, List, [], ◌∷◌, Option, none, some, ite, str_dec, ◌||◌,
  if◌then◌else◌,
}
use pico.Gossip.Types.{NodeMetadata, NodeState, NodeView, Effect, new_metadata}
use pico.Gossip.Detector.{FailureDetector}
use pico.Gossip.Sort.{sort_by_version}

-- The mutex makes each operation one step.
pub record ClusterState : Type 0 where
  pub local_id : GoString
  pub nodes : GoMap NodeState
  pub failure_detector : FailureDetector

-- An operation's outcome: the new state and the calls that it made, or a panic.
abbrev pub Outcome : Type 0
Outcome = Option (ClusterState × List Effect)

-- `ToNodeState`
unfoldable pub to_node_view : NodeState → NodeView
to_node_view s = record { metadata = s.metadata; entries = sort_by_version (values s.entries) }

abbrev pub new_node : GoString → GoString → NodeState
new_node id addr = record { metadata = new_metadata id addr; entries = [] }

unfoldable pub new_cluster_state : GoString → GoString → FailureDetector → ClusterState
new_cluster_state local_id local_addr detector = record {
  local_id = local_id;
  nodes = (local_id, new_node local_id local_addr) ∷ [];
  failure_detector = detector;
}

-- `Node`
unfoldable pub node : ClusterState → GoString → Option NodeView
unfolding to_node_view
node s id = elim (lookup id s.nodes) [ none ↦ none | some n ↦ some (to_node_view n) ]

-- `s.nodes[s.localID]`; to use a missing one is a nil dereference.
abbrev pub local_state : ClusterState → Option NodeState
local_state s = lookup s.local_id s.nodes

-- The pointer that the map holds is written through.
abbrev pub put_local : ClusterState → NodeState → ClusterState
put_local s n = record s { nodes = insert s.local_id n s.nodes }

-- `LocalNodeMetadata`
unfoldable pub local_node_metadata : ClusterState → Option NodeMetadata
local_node_metadata s = elim (local_state s) [ none ↦ none | some n ↦ some n.metadata ]

-- `LocalNode`
unfoldable pub local_node : ClusterState → Option NodeView
unfolding to_node_view
local_node s = elim (local_state s) [ none ↦ none | some n ↦ some (to_node_view n) ]

metadata_of : List NodeState → List NodeMetadata
metadata_of [] = []
metadata_of (n ∷ ns) = n.metadata ∷ metadata_of ns

-- `Nodes`
unfoldable pub all_nodes : ClusterState → List NodeMetadata
unfolding metadata_of
all_nodes s = metadata_of (values s.nodes)

live_of : GoString → List NodeState → List NodeMetadata
live_of local_id [] = []
live_of local_id (n ∷ ns) =
    let rest = live_of local_id ns in
    ite (str_dec n.id local_id) rest (if n.unreachable || n.left then rest else n.metadata ∷ rest)

-- `LiveNodes`
unfoldable pub live_nodes : ClusterState → List NodeMetadata
unfolding live_of
live_nodes s = live_of s.local_id (values s.nodes)

unreachable_of : GoString → List NodeState → List NodeMetadata
unreachable_of local_id [] = []
unreachable_of local_id (n ∷ ns) =
    let rest = unreachable_of local_id ns in
    ite (str_dec n.id local_id) rest (if n.unreachable then n.metadata ∷ rest else rest)

-- `UnreachableNodes`
unfoldable pub unreachable_nodes : ClusterState → List NodeMetadata
unfolding unreachable_of
unreachable_nodes s = unreachable_of s.local_id (values s.nodes)
