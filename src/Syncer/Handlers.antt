-- ===== src/Syncer/Handlers.antt =====
-- server/gossip/syncer.go: the Watcher's calls and the split into pending and joined nodes.
use pico.Prelude.{
  ◌≡◌, ◌≢◌, ◌∙◌, ℕ, refl, inl, inr, GoString, lookup, delete, [], some, arith, str_dec, cut_prefix,
  Option-cases, Bool-cases, Bool, true, false, List, ite,
}
use pico.Strconv.{atoi}
use pico.Cluster.Types.{Node, NodeStatus, unset, active, unreachable, left}
use pico.Cluster.State.{
  State, Call, remove_node, update_remote_status, update_remote_endpoint, remove_remote_endpoint,
  set_listeners,
}
use pico.Gossip.Types.{
  Event, on_join, on_leave, on_reachable, on_unreachable, on_upsert_key, on_delete_key, on_expired,
}
use pico.Syncer.{
  Syncer, Result, or_pending, unless_local, empty_node, set_status, update_pending, upsert_pending,
  upsert_endpoint, upsert_remote, is_immutable, handle_join, handle_leave, handle_reachable,
  handle_unreachable, handle_expired, handle_upsert_key, handle_delete_key, delete_pending_endpoint,
  handle, endpoint_prefix,
}
use pico.Syncer.Pending.{
  Splits, with_cluster, put_node-Splits, set_pending-Splits, drop_pending-Splits, remove-Splits,
  promote-Splits,
}

unless_local-Splits :
    (y : Syncer) (id : GoString) (r : Result)
    → Splits y
    → (id ≢ y.cluster_state.local_id → Splits r.0)
    → Splits (unless_local y id r).0
unless_local-Splits y id r h f = go (str_dec id y.cluster_state.local_id)
  where
    go : (d : Dec (id ≡ y.cluster_state.local_id)) → Splits (ite d (y, []) r).0
    go (yes p) = h
    go (no p) = f p

or_pending-Splits :
    (y : Syncer) (r : State × List Call × Bool) (other : Syncer)
    → (r.2 ≡ true → Splits (with_cluster y r.0))
    → Splits other
    → Splits (or_pending y r other).0
or_pending-Splits y (s, calls, true) other taken kept = taken refl
or_pending-Splits y (s, calls, false) other taken kept = kept

module _ (y : Syncer) (id : GoString) (h : Splits y) (remote : id ≢ y.cluster_state.local_id) where
  -- What the cluster takes in.
  away-Splits :
      (r r' : State × List Call × Bool)
      → Splits (with_cluster y r'.0)
      → Splits (with_cluster y (ite (str_dec id y.cluster_state.local_id) r r').0)
  away-Splits r r' taken = go (str_dec id y.cluster_state.local_id)
    where
      go : (d : Dec (id ≡ y.cluster_state.local_id)) → Splits (with_cluster y (ite d r r').0)
      go (yes p) = absurd (remote p)
      go (no p) = taken

  status_taken :
      (status : NodeStatus)
      → status ≢ unset
      → Splits (with_cluster y (update_remote_status y.cluster_state id status).0)
  unfolding update_remote_status
  status_taken status set = away-Splits _ _ (elim (Option-cases (lookup id y.cluster_state.nodes)) [
    | inl unknown ↦ rw unknown h
    | inr (n, found) ↦ rw found (
        put_node-Splits y id h n (record n { status = status }) found refl
          (ground (arith, h.joined id n found, set, remote)))
  ])

  removed_taken : Splits (with_cluster y (remove_node y.cluster_state id).0)
  unfolding remove_node
  removed_taken = away-Splits _ _ (elim (Option-cases (lookup id y.cluster_state.nodes)) [
    | inl unknown ↦ rw unknown h
    | inr (n, found) ↦ rw found (remove-Splits y id h)
  ])

  endpoint_taken :
      (endpoint_id : GoString) (listeners : ℕ)
      → Splits (with_cluster y (update_remote_endpoint y.cluster_state id endpoint_id listeners).0)
  unfolding update_remote_endpoint
  endpoint_taken endpoint_id listeners =
      away-Splits _ _ (elim (Option-cases (lookup id y.cluster_state.nodes)) [
        | inl unknown ↦ rw unknown h
        | inr (n, found) ↦ rw found (
            put_node-Splits y id h n (set_listeners n endpoint_id listeners) found refl
              (h.joined id n found).1)
      ])

  removed_endpoint_taken :
      (endpoint_id : GoString)
      → Splits (with_cluster y (remove_remote_endpoint y.cluster_state id endpoint_id).0)
  unfolding remove_remote_endpoint
  removed_endpoint_taken endpoint_id =
      away-Splits _ _ (elim (Option-cases (lookup id y.cluster_state.nodes)) [
        | inl unknown ↦ rw unknown h
        | inr (n, found) ↦ rw found (
            put_node-Splits y id h n (record n { endpoints = delete endpoint_id n.endpoints }) found
              refl (h.joined id n found).1)
      ])

  -- What the pending nodes take in.
  set_status-Splits : (status : NodeStatus) → Splits (set_status y id status)
  set_status-Splits status = elim (Option-cases (lookup id y.pending_nodes)) [
    | inl new ↦ rw (set_status, new) h
    | inr (n, found) ↦
        let (same, away, unknown) = h.pending id n found in
        rw (set_status, found)
          (set_pending-Splits y id h (record n { status = status }) same remote unknown)
  ]

  delete_endpoint-Splits :
      (endpoint_id : GoString) → Splits (delete_pending_endpoint y id endpoint_id)
  delete_endpoint-Splits endpoint_id = elim (Option-cases (lookup id y.pending_nodes)) [
    | inl new ↦ rw (delete_pending_endpoint, new) h
    | inr (n, found) ↦
        let (same, away, unknown) = h.pending id n found in
        rw (delete_pending_endpoint, found)
          (set_pending-Splits y id h (record n { endpoints = delete endpoint_id n.endpoints }) same
            remote unknown)
  ]

  update_pending_id :
      (n n' : Node) (key value : GoString) → update_pending n key value ≡ some n' → n'.id ≡ n.id
  unfolding update_pending
  update_pending_id n n' key value e = ground (arith, e)

  upsert_pending-Splits : (key value : GoString) → Splits (upsert_pending y id key value).0
  unfolding upsert_pending
  upsert_pending-Splits key value = elim (Option-cases (lookup id y.pending_nodes)) [
    | inl new ↦ rw (upsert_pending, new) h
    | inr (n, found) ↦ elim (Option-cases (update_pending n key value)) [
      | inl refused ↦ rw (upsert_pending, found, refused) h
      | inr (n', taken) ↦
          let (same, away, unknown) = h.pending id n found in
          rw (upsert_pending, found, taken)
            (promote-Splits y id n' h (update_pending_id n n' key value taken ∙ same) remote
              unknown)
    ]
  ]

  upsert_endpoint-Splits :
      (key value endpoint_id : GoString) → Splits (upsert_endpoint y id key value endpoint_id).0
  unfolding upsert_endpoint
  upsert_endpoint-Splits key value endpoint_id = elim (Option-cases (atoi value)) [
    | inl bad ↦ rw (upsert_endpoint, bad) h
    | inr (listeners, good) ↦
        elim (Bool-cases (update_remote_endpoint y.cluster_state id endpoint_id listeners).2) [
          | inl updated ↦ rw (upsert_endpoint, good, updated) (endpoint_taken endpoint_id listeners)
          | inr refused ↦ rw (upsert_endpoint, good, refused) (upsert_pending-Splits key value)
        ]
  ]

  upsert_remote-Splits : (key value : GoString) → Splits (upsert_remote y id key value).0
  unfolding upsert_remote
  upsert_remote-Splits key value = elim (Option-cases (cut_prefix key endpoint_prefix)) [
    | inl other ↦ rw (upsert_remote, other) (upsert_pending-Splits key value)
    | inr (endpoint_id, is_endpoint) ↦
        rw (upsert_remote, is_endpoint) (upsert_endpoint-Splits key value endpoint_id)
  ]

handle_join-Splits : (y : Syncer) (id : GoString) → Splits y → Splits (handle_join y id).0
unfolding handle_join
handle_join-Splits y id h = unless_local-Splits y id _ h λ remote.
    elim (Option-cases (lookup id y.cluster_state.nodes)) [
      | inr (n, found) ↦ rw found h
      | inl unknown ↦ elim (Option-cases (lookup id y.pending_nodes)) [
        | inr (n, found) ↦ rw (unknown, found) h
        | inl new ↦
            rw (unknown, new) (set_pending-Splits y id h (empty_node id) refl remote unknown)
      ]
    ]

handle_upsert_key-Splits :
    (y : Syncer) (id key value : GoString) → Splits y → Splits (handle_upsert_key y id key value).0
unfolding handle_upsert_key
handle_upsert_key-Splits y id key value h = unless_local-Splits y id _ h λ remote.
    elim (Bool-cases (is_immutable key)) [
      | inl fixed ↦ elim (Option-cases (lookup id y.cluster_state.nodes)) [
        | inl unknown ↦ rw (fixed, unknown) (upsert_remote-Splits y id h remote key value)
        | inr (n, found) ↦ rw (fixed, found) h
      ]
      | inr free ↦ rw free (upsert_remote-Splits y id h remote key value)
    ]

handle_delete_key-Splits :
    (y : Syncer) (id key : GoString) → Splits y → Splits (handle_delete_key y id key).0
unfolding handle_delete_key
handle_delete_key-Splits y id key h = unless_local-Splits y id _ h λ remote.
    elim (Option-cases (cut_prefix key endpoint_prefix)) [
      | inl other ↦ rw other h
      | inr (endpoint_id, is_endpoint) ↦ rw is_endpoint (
          or_pending-Splits y _ _ (λ e. removed_endpoint_taken y id h remote endpoint_id)
            (delete_endpoint-Splits y id h remote endpoint_id))
    ]

-- Every call of the Watcher keeps this: no node is both pending and joined, each stands under its
-- own ID, the local node is never pending, and the joined remote nodes have both addresses and a
-- status.
pub handle-Splits : (y : Syncer) (e : Event) → Splits y → Splits (handle y e).0
unfolding handle handle_leave handle_reachable handle_unreachable handle_expired
handle-Splits y (on_join id) h = handle_join-Splits y id h
handle-Splits y (on_leave id) h = unless_local-Splits y id _ h λ remote.
    or_pending-Splits y _ _ (λ e. status_taken y id h remote left (ground arith))
      (drop_pending-Splits y id h)
handle-Splits y (on_reachable id) h = unless_local-Splits y id _ h λ remote.
    or_pending-Splits y _ _ (λ e. status_taken y id h remote active (ground arith))
      (set_status-Splits y id h remote active)
handle-Splits y (on_unreachable id) h = unless_local-Splits y id _ h λ remote.
    or_pending-Splits y _ _ (λ e. status_taken y id h remote unreachable (ground arith))
      (set_status-Splits y id h remote unreachable)
handle-Splits y (on_upsert_key id key value) h = handle_upsert_key-Splits y id key value h
handle-Splits y (on_delete_key id key) h = handle_delete_key-Splits y id key h
handle-Splits y (on_expired id) h = unless_local-Splits y id _ h λ remote.
    or_pending-Splits y _ _ (λ e. removed_taken y id h remote) (drop_pending-Splits y id h)
