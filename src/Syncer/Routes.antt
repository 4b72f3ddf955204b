-- ===== src/Syncer/Routes.antt =====
-- server/gossip/syncer.go with server/cluster/state.go: routes to the endpoints that other nodes
-- publish.
use pico.Prelude.{
  ℕ, ◌<◌, ◌^◌, ◌≡◌, ◌≢◌, ◌∙◌, sym, inl, inr, GoString, lookup, values, some, true, arith,
  cut_prefix-append, lookup-insert, All-elem, Elem, Elem-values,
}
use pico.Strconv.{itoa}
use pico.Strconv.RoundTrip.{atoi-itoa}
use pico.Cluster.Types.{Node}
use pico.Cluster.State.{
  State, is_active, put_node, set_listeners, lookup_endpoint, update_remote_endpoint,
}
use pico.Cluster.Lookup.{CanServe, lookup_endpoint_lem}
use pico.Syncer.{
  Syncer, endpoint_key, endpoint_prefix, handle_upsert_key, upsert_remote, upsert_endpoint,
}
use pico.Syncer.Pending.{Splits}
use pico.Syncer.Endpoints.{is_immutable-endpoint_key}

module _ (y : Syncer) (h : Splits y) (id : GoString) (remote : id ≢ y.cluster_state.local_id)
    (n : Node) (found : lookup id y.cluster_state.nodes ≡ some n) (e : GoString) (l : ℕ) where
  updated_state :
      l < 2 ^ 64
      → (handle_upsert_key y id (endpoint_key e) (itoa l)).0.cluster_state
        ≡ put_node y.cluster_state id (set_listeners n e l)
  unfolding handle_upsert_key upsert_remote upsert_endpoint update_remote_endpoint
  updated_state fits = ground (
    arith,
    remote,
    found,
    atoi-itoa l fits,
    is_immutable-endpoint_key e,
    cut_prefix-append endpoint_prefix e,
  )

  abbrev after : State
  after = put_node y.cluster_state id (set_listeners n e l)

  there : Elem (set_listeners n e l) (values after.nodes)
  there =
      Elem-values id (set_listeners n e l) after.nodes
        (ground (arith, lookup-insert id id (set_listeners n e l) y.cluster_state.nodes))

  set_listeners-CanServe :
      is_active n ≡ true
      → 0 < l
      → l < 2 ^ 63
      → CanServe y.cluster_state.local_id e (set_listeners n e l)
  set_listeners-CanServe on positive fits = (
    (λ p. remote (sym (h.joined id n found).0 ∙ p)),
    on,
    ground (arith, lookup-insert e e l n.endpoints, positive, fits),
  )

  -- When a joined, active remote node publishes a positive number of listeners of an endpoint,
  -- LookupEndpoint then finds a node that can serve the endpoint.
  pub handle_upsert_key-CanServe :
      is_active n ≡ true
      → 0 < l
      → l < 2 ^ 63
      → (m : Node) × (lookup_endpoint
            (handle_upsert_key y id (endpoint_key e) (itoa l)).0.cluster_state
            e
          ≡ some m)
        × CanServe y.cluster_state.local_id e m
  handle_upsert_key-CanServe on positive fits =
      rw (updated_state (omega arith)) (elim (lookup_endpoint_lem after e) [
        | inl (nowhere, all) ↦ absurd (
            All-elem _ (values after.nodes) (set_listeners n e l) all there
              (set_listeners-CanServe on positive fits))
        | inr (m, at, in_map, serves_it) ↦ (m, at, serves_it)
      ])
