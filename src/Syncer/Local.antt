-- ===== src/Syncer/Local.antt =====
-- server/gossip/syncer.go: the Watcher's calls and the local node of the cluster state.
use pico.Prelude.{
  ℕ, ◌≡◌, refl, inl, inr, GoString, lookup, delete, arith, str_dec, ite, true, false, Bool, List,
  [], cut_prefix, lookup-insert, lookup-delete, Option-cases, Bool-cases,
}
use pico.Cluster.Types.{Node, NodeStatus, active, unreachable, left}
use pico.Cluster.State.{
  State, Call, add_node, remove_node, update_remote_status, update_remote_endpoint,
  remove_remote_endpoint, set_listeners,
}
use pico.Gossip.Types.{
  Event, on_join, on_leave, on_reachable, on_unreachable, on_upsert_key, on_delete_key, on_expired,
}
use pico.Syncer.{
  Syncer, Result, or_pending, unless_local, handle, handle_join, handle_leave, handle_reachable,
  handle_unreachable, handle_expired, handle_upsert_key, handle_delete_key, upsert_remote,
  upsert_endpoint, upsert_pending, promote, with_status, update_pending, is_immutable,
  endpoint_prefix, set_status, delete_pending_endpoint,
}
use pico.Strconv.{atoi}

-- The two states have the same local node.
abbrev pub SameLocal : State → State → Type 0
SameLocal s s' =
    (s'.local_id ≡ s.local_id) × (lookup s.local_id s'.nodes ≡ lookup s.local_id s.nodes)

module _ (s : State) (id : GoString) where
  add_node-SameLocal : (n : Node) → SameLocal s (add_node s n).0
  unfolding add_node
  add_node-SameLocal n = ground (arith, lookup-insert n.id s.local_id n s.nodes)

  remove_node-SameLocal : SameLocal s (remove_node s id).0
  unfolding remove_node
  remove_node-SameLocal = ground (arith, lookup-delete id s.local_id s.nodes)

  update_remote_status-SameLocal :
      (status : NodeStatus) → SameLocal s (update_remote_status s id status).0
  unfolding update_remote_status
  update_remote_status-SameLocal status = elim (Option-cases (lookup id s.nodes)) [
    | inl unknown ↦ ground (arith, unknown)
    | inr (n, found) ↦
        ground (arith, found, lookup-insert id s.local_id (record n { status = status }) s.nodes)
  ]

  update_remote_endpoint-SameLocal :
      (e : GoString) (l : ℕ) → SameLocal s (update_remote_endpoint s id e l).0
  unfolding update_remote_endpoint
  update_remote_endpoint-SameLocal e l = elim (Option-cases (lookup id s.nodes)) [
    | inl unknown ↦ ground (arith, unknown)
    | inr (n, found) ↦
        ground (arith, found, lookup-insert id s.local_id (set_listeners n e l) s.nodes)
  ]

  remove_remote_endpoint-SameLocal : (e : GoString) → SameLocal s (remove_remote_endpoint s id e).0
  unfolding remove_remote_endpoint
  remove_remote_endpoint-SameLocal e = elim (Option-cases (lookup id s.nodes)) [
    | inl unknown ↦ ground (arith, unknown)
    | inr (n, found) ↦ ground (
      arith,
      found,
      lookup-insert id s.local_id (record n { endpoints = delete e n.endpoints }) s.nodes,
    )
  ]

module _ (y : Syncer) (id : GoString) where
  unless_local-SameLocal :
      (r : Result)
      → SameLocal y.cluster_state r.0.cluster_state
      → SameLocal y.cluster_state (unless_local y id r).0.cluster_state
  unless_local-SameLocal r h = go (str_dec id y.cluster_state.local_id)
    where
      go :
          (d : Dec (id ≡ y.cluster_state.local_id))
          → SameLocal y.cluster_state (ite d (y, []) r).0.cluster_state
      go (yes p) = (refl, refl)
      go (no p) = h

  or_pending-SameLocal :
      (r : State × List Call × Bool) (other : Syncer)
      → SameLocal y.cluster_state r.0
      → SameLocal y.cluster_state other.cluster_state
      → SameLocal y.cluster_state (or_pending y r other).0.cluster_state
  or_pending-SameLocal (s, calls, true) other h h' = h
  or_pending-SameLocal (s, calls, false) other h h' = h'

  promote-SameLocal : (n : Node) → SameLocal y.cluster_state (promote y id n).0.cluster_state
  unfolding promote
  promote-SameLocal n = ground (arith, add_node-SameLocal y.cluster_state id (with_status n))

  upsert_pending-SameLocal :
      (key value : GoString)
      → SameLocal y.cluster_state (upsert_pending y id key value).0.cluster_state
  unfolding upsert_pending
  upsert_pending-SameLocal key value = elim (Option-cases (lookup id y.pending_nodes)) [
    | inl new ↦ rw (upsert_pending, new) (refl, refl)
    | inr (n, found) ↦ elim (Option-cases (update_pending n key value)) [
      | inl refused ↦ rw (upsert_pending, found, refused) (refl, refl)
      | inr (n', taken) ↦ rw (upsert_pending, found, taken) (promote-SameLocal n')
    ]
  ]

  upsert_endpoint-SameLocal :
      (key value e : GoString)
      → SameLocal y.cluster_state (upsert_endpoint y id key value e).0.cluster_state
  unfolding upsert_endpoint
  upsert_endpoint-SameLocal key value e = elim (Option-cases (atoi value)) [
    | inl bad ↦ rw (upsert_endpoint, bad) (refl, refl)
    | inr (l, good) ↦ elim (Bool-cases (update_remote_endpoint y.cluster_state id e l).2) [
      | inl updated ↦
          rw (upsert_endpoint, good, updated)
            (update_remote_endpoint-SameLocal y.cluster_state id e l)
      | inr refused ↦ rw (upsert_endpoint, good, refused) (upsert_pending-SameLocal key value)
    ]
  ]

  upsert_remote-SameLocal :
      (key value : GoString)
      → SameLocal y.cluster_state (upsert_remote y id key value).0.cluster_state
  unfolding upsert_remote
  upsert_remote-SameLocal key value = elim (Option-cases (cut_prefix key endpoint_prefix)) [
    | inl other ↦ rw (upsert_remote, other) (upsert_pending-SameLocal key value)
    | inr (e, is_endpoint) ↦ rw (upsert_remote, is_endpoint) (upsert_endpoint-SameLocal key value e)
  ]

  handle_upsert_key-SameLocal :
      (key value : GoString)
      → SameLocal y.cluster_state (handle_upsert_key y id key value).0.cluster_state
  unfolding handle_upsert_key
  handle_upsert_key-SameLocal key value =
      unless_local-SameLocal _ (elim (Bool-cases (is_immutable key)) [
        | inr free ↦ rw free (upsert_remote-SameLocal key value)
        | inl fixed ↦ elim (Option-cases (lookup id y.cluster_state.nodes)) [
          | inl unknown ↦ rw (fixed, unknown) (upsert_remote-SameLocal key value)
          | inr (n, found) ↦ rw (fixed, found) (refl, refl)
        ]
      ])

  handle_delete_key-SameLocal :
      (key : GoString) → SameLocal y.cluster_state (handle_delete_key y id key).0.cluster_state
  unfolding handle_delete_key
  handle_delete_key-SameLocal key =
      unless_local-SameLocal _ (elim (Option-cases (cut_prefix key endpoint_prefix)) [
        | inl other ↦ rw other (refl, refl)
        | inr (e, is_endpoint) ↦ rw is_endpoint (
            or_pending-SameLocal _ (delete_pending_endpoint y id e)
              (remove_remote_endpoint-SameLocal y.cluster_state id e) (ground arith))
      ])

  handle_join-SameLocal : SameLocal y.cluster_state (handle_join y id).0.cluster_state
  unfolding handle_join
  handle_join-SameLocal = ground arith

  set_status-SameLocal :
      (status : NodeStatus) → SameLocal y.cluster_state (set_status y id status).cluster_state
  set_status-SameLocal status = ground arith

-- No call of the Watcher changes the local node's ID or its entry in the cluster state.
pub handle-SameLocal :
    (y : Syncer) (e : Event) → SameLocal y.cluster_state (handle y e).0.cluster_state
unfolding handle handle_leave handle_reachable handle_unreachable handle_expired
handle-SameLocal y (on_join id) = handle_join-SameLocal y id
handle-SameLocal y (on_leave id) = unless_local-SameLocal y id _ (
    or_pending-SameLocal y id _ _ (update_remote_status-SameLocal y.cluster_state id left)
      (refl, refl))
handle-SameLocal y (on_reachable id) = unless_local-SameLocal y id _ (
    or_pending-SameLocal y id _ _ (update_remote_status-SameLocal y.cluster_state id active)
      (set_status-SameLocal y id active))
handle-SameLocal y (on_unreachable id) = unless_local-SameLocal y id _ (
    or_pending-SameLocal y id _ _ (update_remote_status-SameLocal y.cluster_state id unreachable)
      (set_status-SameLocal y id unreachable))
handle-SameLocal y (on_upsert_key id key value) = handle_upsert_key-SameLocal y id key value
handle-SameLocal y (on_delete_key id key) = handle_delete_key-SameLocal y id key
handle-SameLocal y (on_expired id) =
    unless_local-SameLocal y id _
      (or_pending-SameLocal y id _ _ (remove_node-SameLocal y.cluster_state id) (refl, refl))
