-- ===== src/Syncer.antt =====
-- server/gossip/syncer.go: what gossip tells of the other nodes goes into the cluster state, and
-- what the cluster state tells of the local node goes into gossip. The log is not modelled.
pub mod Pending
pub mod Handlers
pub mod Endpoints
pub mod Routes
pub mod Local
use pico.Prelude.{
  ℕ, GoString, codes, GoMap, lookup, insert, delete, Bool, true, false, List, [], ◌∷◌, ◌++◌, Option,
  none, some, ite, str_dec, cut_prefix, if◌then◌else◌, ◌>>=◌,
}
use pico.Prelude.Int64.{is_positive}
use pico.Strconv.{itoa, atoi}
use pico.Cluster.Types.{Node, NodeStatus, unset, active, unreachable, left}
use pico.Cluster.State.{
  State, Call, add_node, remove_node, update_remote_status, update_remote_endpoint,
  remove_remote_endpoint, local_endpoint_listeners, local_node, set_listeners,
}
use pico.Gossip.Types.{
  Event, on_join, on_leave, on_reachable, on_unreachable, on_upsert_key, on_delete_key, on_expired,
}

abbrev pub proxy_addr_key : GoString
proxy_addr_key = codes "proxy_addr"

abbrev pub admin_addr_key : GoString
admin_addr_key = codes "admin_addr"

abbrev pub endpoint_prefix : GoString
endpoint_prefix = codes "endpoint:"

abbrev pub endpoint_key : GoString → GoString
endpoint_key endpoint_id = endpoint_prefix ++ endpoint_id

-- The syncer with the cluster state that it points to.
pub record Syncer : Type 0 where
  pub pending_nodes : GoMap Node
  pub cluster_state : State

abbrev pub Result : Type 0
Result = Syncer × List Call

abbrev pub new_syncer : State → Syncer
new_syncer s = record { pending_nodes = []; cluster_state = s }

abbrev pub ignored : Syncer → Result
ignored y = (y, [])

abbrev pub set_pending : Syncer → GoString → Node → Syncer
set_pending y id n = record y { pending_nodes = insert id n y.pending_nodes }

abbrev pub drop_pending : Syncer → GoString → Syncer
drop_pending y id = record y { pending_nodes = delete id y.pending_nodes }

-- `node_id` is the local node's.
abbrev pub unless_local : Syncer → GoString → Result → Result
unless_local y node_id r = ite (str_dec node_id y.cluster_state.local_id) (ignored y) r

abbrev pub empty_node : GoString → Node
empty_node id = record { id = id; status = unset; proxy_addr = []; admin_addr = []; endpoints = [] }

-- `OnJoin`
unfoldable pub handle_join : Syncer → GoString → Result
handle_join y node_id = unless_local y node_id (elim (lookup node_id y.cluster_state.nodes) [
  | some n ↦ ignored y
  | none ↦ elim (lookup node_id y.pending_nodes) [
    | some n ↦ ignored y
    | none ↦ (set_pending y node_id (empty_node node_id), [])
  ]
])

-- The cluster takes an update, or else the pending nodes do.
abbrev pub or_pending : Syncer → State × List Call × Bool → Syncer → Result
or_pending y (s, calls, true) other = (record y { cluster_state = s }, calls)
or_pending y (s, calls, false) other = ignored other

-- `OnLeave`
unfoldable pub handle_leave : Syncer → GoString → Result
handle_leave y node_id =
    unless_local y node_id
      (or_pending y (update_remote_status y.cluster_state node_id left) (drop_pending y node_id))

-- A pending node's status is set.
abbrev pub set_status : Syncer → GoString → NodeStatus → Syncer
set_status y node_id status = elim (lookup node_id y.pending_nodes) [
  | none ↦ y
  | some n ↦ set_pending y node_id (record n { status = status })
]

-- `OnReachable`
unfoldable pub handle_reachable : Syncer → GoString → Result
handle_reachable y node_id = unless_local y node_id (
    or_pending y (update_remote_status y.cluster_state node_id active)
      (set_status y node_id active))

-- `OnUnreachable`
unfoldable pub handle_unreachable : Syncer → GoString → Result
handle_unreachable y node_id = unless_local y node_id (
    or_pending y (update_remote_status y.cluster_state node_id unreachable)
      (set_status y node_id unreachable))

-- `OnExpired`
unfoldable pub handle_expired : Syncer → GoString → Result
handle_expired y node_id =
    unless_local y node_id
      (or_pending y (remove_node y.cluster_state node_id) (drop_pending y node_id))

-- A pending node with its key's value; `none` for a key that is not supported or a bad number.
unfoldable pub update_pending : Node → GoString → GoString → Option Node
update_pending n key value =
    ite (str_dec key proxy_addr_key) (some (record n { proxy_addr = value })) (
      ite (str_dec key admin_addr_key) (some (record n { admin_addr = value }))
        (elim (cut_prefix key endpoint_prefix) [
          | none ↦ none
          | some endpoint_id ↦ elim (atoi value) [
            | none ↦ none
            | some listeners ↦ some (set_listeners n endpoint_id listeners)
          ]
        ]))

-- `node.ProxyAddr != "" && node.AdminAddr != ""`
abbrev pub is_complete : Node → Bool
is_complete n = ite (str_dec n.proxy_addr []) false (ite (str_dec n.admin_addr []) false true)

-- A node that joins the cluster is active, unless its status is known.
abbrev pub with_status : Node → Node
with_status n = elim n.status [ unset ↦ record n { status = active } | _ ↦ n ]

-- A pending node was updated: it goes to the cluster once it is complete.
unfoldable pub promote : Syncer → GoString → Node → Result
promote y node_id n =
    if is_complete n
    then (let (s, calls) = add_node y.cluster_state (with_status n) in
        (record { pending_nodes = delete n.id y.pending_nodes; cluster_state = s }, calls))
    else (set_pending y node_id n, [])

-- The part of `OnUpsertKey` that is about pending nodes.
unfoldable pub upsert_pending : Syncer → GoString → GoString → GoString → Result
unfolding update_pending promote
upsert_pending y node_id key value = elim (lookup node_id y.pending_nodes) [
  | none ↦ ignored y
  | some n ↦ elim (update_pending n key value) [ none ↦ ignored y | some n' ↦ promote y node_id n' ]
]

-- The first use of an endpoint's key: a node of the cluster is updated.
unfoldable pub upsert_endpoint : Syncer → GoString → GoString → GoString → GoString → Result
unfolding upsert_pending
upsert_endpoint y node_id key value endpoint_id = elim (atoi value) [
  | none ↦ ignored y
  | some listeners ↦
      let (s, calls, updated) =
        update_remote_endpoint y.cluster_state node_id endpoint_id listeners in
      if updated
      then (record y { cluster_state = s }, calls)
      else upsert_pending y node_id key value
]

-- The rest of `OnUpsertKey`, for a node that is not the local one, behind the immutable fields of
-- a node that is in the cluster.
unfoldable pub upsert_remote : Syncer → GoString → GoString → GoString → Result
unfolding upsert_endpoint
upsert_remote y node_id key value = elim (cut_prefix key endpoint_prefix) [
  | some endpoint_id ↦ upsert_endpoint y node_id key value endpoint_id
  | none ↦ upsert_pending y node_id key value
]

abbrev pub is_immutable : GoString → Bool
is_immutable key =
    ite (str_dec key proxy_addr_key) true (ite (str_dec key admin_addr_key) true false)

-- `OnUpsertKey`
unfoldable pub handle_upsert_key : Syncer → GoString → GoString → GoString → Result
unfolding upsert_remote
handle_upsert_key y node_id key value = unless_local y node_id (
    if is_immutable key
    then elim (lookup node_id y.cluster_state.nodes) [
      | some n ↦ ignored y
      | none ↦ upsert_remote y node_id key value
    ]
    else upsert_remote y node_id key value)

-- The last part of `OnDeleteKey`.
abbrev pub delete_pending_endpoint : Syncer → GoString → GoString → Syncer
delete_pending_endpoint y node_id endpoint_id = elim (lookup node_id y.pending_nodes) [
  | none ↦ y
  | some n ↦ set_pending y node_id (record n { endpoints = delete endpoint_id n.endpoints })
]

-- `OnDeleteKey`
unfoldable pub handle_delete_key : Syncer → GoString → GoString → Result
handle_delete_key y node_id key = unless_local y node_id (elim (cut_prefix key endpoint_prefix) [
  | none ↦ ignored y
  | some endpoint_id ↦
      or_pending y (remove_remote_endpoint y.cluster_state node_id endpoint_id)
        (delete_pending_endpoint y node_id endpoint_id)
])

-- The `Watcher` of gossip.
unfoldable pub handle : Syncer → Event → Result
unfolding handle_join handle_leave handle_reachable handle_unreachable handle_upsert_key
    handle_delete_key handle_expired
handle y (on_join id) = handle_join y id
handle y (on_leave id) = handle_leave y id
handle y (on_reachable id) = handle_reachable y id
handle y (on_unreachable id) = handle_unreachable y id
handle y (on_upsert_key id key value) = handle_upsert_key y id key value
handle y (on_delete_key id key) = handle_delete_key y id key
handle y (on_expired id) = handle_expired y id

-- `gossiper`: a call that the syncer makes of gossip.
pub data GossipCall : Type 0 where
  upsert_local : GoString → GoString → GossipCall
  delete_local : GoString → GossipCall

-- The loop of `Sync` over the local endpoints.
endpoint_calls : GoMap ℕ → List GossipCall
endpoint_calls [] = []
endpoint_calls ((endpoint_id, listeners) ∷ m) =
    upsert_local (endpoint_key endpoint_id) (itoa listeners) ∷ endpoint_calls m

-- `Sync`, behind the subscription to the cluster state.
unfoldable pub sync : State → Option (List GossipCall)
unfolding endpoint_calls
sync s = do
  n ← local_node s
  some (
      upsert_local proxy_addr_key n.proxy_addr
      ∷ upsert_local admin_addr_key n.admin_addr
      ∷ endpoint_calls n.endpoints)

-- `onLocalEndpointUpdate`
unfoldable pub publish : State → GoString → Option GossipCall
publish s endpoint_id = do
  listeners ← local_endpoint_listeners s endpoint_id
  some (
      if is_positive listeners
      then upsert_local (endpoint_key endpoint_id) (itoa listeners)
      else delete_local (endpoint_key endpoint_id))
