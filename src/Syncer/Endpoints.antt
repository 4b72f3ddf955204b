-- ===== src/Syncer/Endpoints.antt =====
-- server/gossip/syncer.go: what the syncer has of another node's endpoints after it hears of
-- them.
use pico.Prelude.{
  ℕ, ◌<◌, ◌^◌, ◌≡◌, ◌≢◌, ◌⊎◌, ◌∙◌, refl, inl, inr, GoString, lookup, delete, Option, some, none,
  arith, false, str_dec, cut_prefix-append, Option-cases, Bool-cases, lookup-insert, lookup-delete,
}
use pico.Strconv.{itoa}
use pico.Strconv.RoundTrip.{atoi-itoa}
use pico.Cluster.Types.{Node}
use pico.Cluster.State.{update_remote_endpoint, remove_remote_endpoint, set_listeners}
use pico.Syncer.{
  Syncer, endpoint_key, endpoint_prefix, is_immutable, is_complete, with_status, update_pending,
  promote, upsert_pending, upsert_endpoint, upsert_remote, handle_upsert_key, handle_delete_key,
}
use pico.Syncer.Pending.{Splits, with_status_id, add_node_put}

-- The listeners of a node's endpoint, as the cluster has them, or else the pending nodes.
abbrev pub listeners_at : Option Node → GoString → Option ℕ
listeners_at none e = none
listeners_at (some n) e = lookup e n.endpoints

abbrev pub heard : Syncer → GoString → GoString → Option ℕ
heard y id e = elim (lookup id y.cluster_state.nodes) [
  | some n ↦ lookup e n.endpoints
  | none ↦ listeners_at (lookup id y.pending_nodes) e
]

pub is_immutable-endpoint_key : (e : GoString) → is_immutable (endpoint_key e) ≡ false
unfolding str_dec
is_immutable-endpoint_key e = refl

update_pending-endpoint_key :
    (n : Node) (e : GoString) (l : ℕ)
    → l < 2 ^ 64
    → update_pending n (endpoint_key e) (itoa l) ≡ some (set_listeners n e l)
unfolding update_pending
update_pending-endpoint_key n e l fits =
    ground
      (arith, atoi-itoa l fits, is_immutable-endpoint_key e, cut_prefix-append endpoint_prefix e)

with_status_endpoints : (n : Node) → (with_status n).endpoints ≡ n.endpoints
with_status_endpoints n = ground arith

promote-heard :
    (y : Syncer) (id : GoString) (n : Node) (e : GoString) (l : ℕ)
    → n.id ≡ id
    → id ≢ y.cluster_state.local_id
    → lookup id y.cluster_state.nodes ≡ none
    → lookup e n.endpoints ≡ some l
    → heard (promote y id n).0 id e ≡ some l
unfolding promote
promote-heard y id n e l same remote unknown has = elim (Bool-cases (is_complete n)) [
  | inr partial ↦ ground (arith, partial, unknown, has, lookup-insert id id n y.pending_nodes)
  | inl complete ↦
      let joins = with_status_id n ∙ same in
      rw (complete, promote, add_node_put y.cluster_state id (with_status n) joins remote)
        (ground (
          arith,
          has,
          with_status_endpoints n,
          lookup-insert id id (with_status n) y.cluster_state.nodes,
        ))
]

module _ (y : Syncer) (h : Splits y) (id : GoString) (remote : id ≢ y.cluster_state.local_id) where
  upsert_pending-heard :
      (n : Node) (e : GoString) (l : ℕ)
      → l < 2 ^ 64
      → lookup id y.pending_nodes ≡ some n
      → heard (upsert_pending y id (endpoint_key e) (itoa l)).0 id e ≡ some l
  unfolding upsert_pending
  upsert_pending-heard n e l fits found =
      let (same, away, unknown) = h.pending id n found in
      rw (upsert_pending, found, update_pending-endpoint_key n e l fits)
        (promote-heard y id (set_listeners n e l) e l same remote unknown
          (ground (arith, lookup-insert e e l n.endpoints)))

  -- When a remote node that is joined or pending publishes an endpoint with its number of
  -- listeners, an int, the syncer has that number for the endpoint afterwards.
  pub handle_upsert_key-heard :
      (e : GoString) (l : ℕ)
      → l < 2 ^ 64
      → ((n : Node) × (lookup id y.cluster_state.nodes ≡ some n))
        ⊎ ((n : Node) × (lookup id y.pending_nodes ≡ some n))
      → heard (handle_upsert_key y id (endpoint_key e) (itoa l)).0 id e ≡ some l
  unfolding handle_upsert_key upsert_remote upsert_endpoint update_remote_endpoint
  handle_upsert_key-heard e l fits (inl (n, found)) = ground (
    arith,
    remote,
    found,
    atoi-itoa l fits,
    is_immutable-endpoint_key e,
    cut_prefix-append endpoint_prefix e,
    lookup-insert id id (set_listeners n e l) y.cluster_state.nodes,
    lookup-insert e e l n.endpoints,
  )
  handle_upsert_key-heard e l fits (inr (n, found)) =
      let (same, away, unknown) = h.pending id n found in
      ground (
        arith,
        remote,
        unknown,
        atoi-itoa l fits,
        is_immutable-endpoint_key e,
        cut_prefix-append endpoint_prefix e,
        upsert_pending-heard n e l fits found,
      )

  -- When a remote node deletes an endpoint's key, the syncer has no listeners for the endpoint of
  -- that node afterwards.
  pub handle_delete_key-heard :
      (e : GoString) → heard (handle_delete_key y id (endpoint_key e)).0 id e ≡ none
  unfolding handle_delete_key remove_remote_endpoint
  handle_delete_key-heard e = elim (Option-cases (lookup id y.cluster_state.nodes)) [
    | inr (n, found) ↦ ground (
      arith,
      remote,
      found,
      cut_prefix-append endpoint_prefix e,
      lookup-insert id id (record n { endpoints = delete e n.endpoints }) y.cluster_state.nodes,
      lookup-delete e e n.endpoints,
    )
    | inl unknown ↦ elim (Option-cases (lookup id y.pending_nodes)) [
      | inl new ↦ ground (arith, remote, unknown, new, cut_prefix-append endpoint_prefix e)
      | inr (n, found) ↦ ground (
        arith,
        remote,
        unknown,
        found,
        cut_prefix-append endpoint_prefix e,
        lookup-insert id id (record n { endpoints = delete e n.endpoints }) y.pending_nodes,
        lookup-delete e e n.endpoints,
      )
    ]
  ]
