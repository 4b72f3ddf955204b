-- ===== src/Cluster/State.antt =====
-- server/cluster/state.go. The callers share the state; each operation runs under its mutex, and
-- gives back the new state with the calls that it makes: of its subscribers, and of the gauge of
-- nodes. A panic is `none`. The log is not modelled.
use pico.Prelude.{
  ℕ, GoString, GoMap, lookup, insert, delete, values, Bool, true, false, List, [], ◌∷◌, ◌++◌,
  Option, none, some, ite, str_dec, ◌==◌, if◌then◌else◌, ◌>>=◌,
}
use pico.Prelude.Int64.{add_int64, sub_int64, exceeds_int64, is_positive}
use pico.Cluster.Types.{Node, NodeMetadata, NodeStatus, active, metadata}

-- A subscriber is known by a number.
pub data Call : Type 0 where
  local_endpoint : ℕ → GoString → Call
  remote_endpoint : ℕ → GoString → GoString → Call
  nodes_inc : NodeStatus → Call
  nodes_dec : NodeStatus → Call

pub record State : Type 0 where
  pub local_id : GoString
  pub nodes : GoMap Node
  pub local_endpoint_subscribers : List ℕ
  pub remote_endpoint_subscribers : List ℕ

-- `NewState`
unfoldable pub new_state : Node → State × List Call
new_state local_node = (
  record {
    local_id = local_node.id;
    nodes = (local_node.id, record local_node { status = active }) ∷ [];
    local_endpoint_subscribers = [];
    remote_endpoint_subscribers = [];
  },
  nodes_inc active ∷ [],
)

-- `Node`; `Copy` gives a node of its own with the same contents.
abbrev pub node : State → GoString → Option Node
node s id = lookup id s.nodes

-- `LocalNode`
abbrev pub local_node : State → Option Node
local_node s = lookup s.local_id s.nodes

-- `Nodes`
abbrev pub all_nodes : State → List Node
all_nodes s = values s.nodes

metadata_of : List Node → List NodeMetadata
metadata_of [] = []
metadata_of (n ∷ ns) = metadata n ∷ metadata_of ns

-- `NodesMetadata`
unfoldable pub nodes_metadata : State → List NodeMetadata
unfolding metadata_of
nodes_metadata s = metadata_of (values s.nodes)

-- `node.Status != NodeStatusActive`, negated.
abbrev pub is_active : Node → Bool
is_active n = elim n.status [ active ↦ true | _ ↦ false ]

-- The listeners of an endpoint; a missing key reads as 0.
abbrev pub listeners_or_zero : Option ℕ → ℕ
listeners_or_zero none = 0
listeners_or_zero (some l) = l

-- `listeners, ok := node.Endpoints[endpointID]; ok && listeners > 0`
abbrev pub serves : GoString → Node → Bool
serves endpoint_id n = is_positive (listeners_or_zero (lookup endpoint_id n.endpoints))

-- The loop of `LookupEndpoint`.
unfoldable pub lookup_endpoint_in : GoString → GoString → List Node → Option Node
lookup_endpoint_in local_id endpoint_id [] = none
lookup_endpoint_in local_id endpoint_id (n ∷ ns) =
    let rest = lookup_endpoint_in local_id endpoint_id ns in
    ite (str_dec n.id local_id) rest
      (if is_active n then (if serves endpoint_id n then some n else rest) else rest)

-- `LookupEndpoint`
unfoldable pub lookup_endpoint : State → GoString → Option Node
unfolding lookup_endpoint_in
lookup_endpoint s endpoint_id = lookup_endpoint_in s.local_id endpoint_id (values s.nodes)

pub call_local : List ℕ → GoString → List Call
call_local [] endpoint_id = []
call_local (f ∷ fs) endpoint_id = local_endpoint f endpoint_id ∷ call_local fs endpoint_id

call_remote : List ℕ → GoString → GoString → List Call
call_remote [] node_id endpoint_id = []
call_remote (f ∷ fs) node_id endpoint_id =
    remote_endpoint f node_id endpoint_id ∷ call_remote fs node_id endpoint_id

-- A node's listeners of one endpoint are set.
abbrev pub set_listeners : Node → GoString → ℕ → Node
set_listeners n endpoint_id listeners = record n {
  endpoints = insert endpoint_id listeners n.endpoints;
}

abbrev pub put_node : State → GoString → Node → State
put_node s id n = record s { nodes = insert id n s.nodes }

-- `AddLocalEndpoint`
unfoldable pub add_local_endpoint : State → GoString → Option (State × List Call)
unfolding call_local
add_local_endpoint s endpoint_id = do
  n ← local_node s
  let listeners = listeners_or_zero (lookup endpoint_id n.endpoints)
  some (
    put_node s s.local_id (set_listeners n endpoint_id (add_int64 listeners 1)),
    call_local s.local_endpoint_subscribers endpoint_id,
  )

-- A listener less, the last one with its key.
abbrev pub remove_listener : Node → GoString → ℕ → Node
remove_listener n endpoint_id listeners =
    if exceeds_int64 listeners 1
    then set_listeners n endpoint_id (sub_int64 listeners 1)
    else record n { endpoints = delete endpoint_id n.endpoints }

-- `RemoveLocalEndpoint`
unfoldable pub remove_local_endpoint : State → GoString → Option (State × List Call)
unfolding call_local
remove_local_endpoint s endpoint_id = do
  n ← local_node s
  let listeners = listeners_or_zero (lookup endpoint_id n.endpoints)
  some (
      if listeners == 0 then (s, []) else (
        put_node s s.local_id (remove_listener n endpoint_id listeners),
        call_local s.local_endpoint_subscribers endpoint_id,
      ))

-- `LocalEndpointListeners`
unfoldable pub local_endpoint_listeners : State → GoString → Option ℕ
local_endpoint_listeners s endpoint_id = do
  n ← local_node s
  some (listeners_or_zero (lookup endpoint_id n.endpoints))

-- `OnLocalEndpointUpdate`
unfoldable pub on_local_endpoint_update : State → ℕ → State
on_local_endpoint_update s f = record s {
  local_endpoint_subscribers = s.local_endpoint_subscribers ++ f ∷ [];
}

-- `OnRemoteEndpointUpdate`
unfoldable pub on_remote_endpoint_update : State → ℕ → State
on_remote_endpoint_update s f = record s {
  remote_endpoint_subscribers = s.remote_endpoint_subscribers ++ f ∷ [];
}

-- `AddNode`
unfoldable pub add_node : State → Node → State × List Call
add_node s n = ite (str_dec n.id s.local_id) (s, []) (put_node s n.id n, nodes_inc n.status ∷ [])

-- `RemoveNode`
unfoldable pub remove_node : State → GoString → State × List Call × Bool
remove_node s id =
    ite (str_dec id s.local_id) (s, [], false)
      (elim (lookup id s.nodes) [
        | none ↦ (s, [], false)
        | some n ↦ (record s { nodes = delete id s.nodes }, nodes_dec n.status ∷ [], true)
      ])

-- `UpdateRemoteStatus`
unfoldable pub update_remote_status : State → GoString → NodeStatus → State × List Call × Bool
update_remote_status s id status =
    ite (str_dec id s.local_id) (s, [], false)
      (elim (lookup id s.nodes) [
        | none ↦ (s, [], false)
        | some n ↦ (
          put_node s id (record n { status = status }),
          nodes_dec n.status ∷ nodes_inc status ∷ [],
          true,
        )
      ])

-- `UpdateRemoteEndpoint`
unfoldable pub update_remote_endpoint : State → GoString → GoString → ℕ → State × List Call × Bool
unfolding call_remote
update_remote_endpoint s id endpoint_id listeners =
    ite (str_dec id s.local_id) (s, [], false)
      (elim (lookup id s.nodes) [
        | none ↦ (s, [], false)
        | some n ↦ (
          put_node s id (set_listeners n endpoint_id listeners),
          call_remote s.remote_endpoint_subscribers id endpoint_id,
          true,
        )
      ])

-- `RemoveRemoteEndpoint`
unfoldable pub remove_remote_endpoint : State → GoString → GoString → State × List Call × Bool
unfolding call_remote
remove_remote_endpoint s id endpoint_id =
    ite (str_dec id s.local_id) (s, [], false)
      (elim (lookup id s.nodes) [
        | none ↦ (s, [], false)
        | some n ↦ (
          put_node s id (record n { endpoints = delete endpoint_id n.endpoints }),
          call_remote s.remote_endpoint_subscribers id endpoint_id,
          true,
        )
      ])
