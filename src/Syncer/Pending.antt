-- ===== src/Syncer/Pending.antt =====
-- server/gossip/syncer.go: the pending nodes, whose addresses are not both known, and the joined
-- ones.
use pico.Prelude.{
  ◌≡◌, ◌≢◌, ◌⊎◌, ◌∙◌, sym, subst, inl, inr, GoString, lookup, delete, [], some, none, true, arith,
  lookup-insert, lookup-delete, Bool-cases,
}
use pico.Cluster.Types.{Node, unset}
use pico.Cluster.State.{State, put_node, add_node}
use pico.Syncer.{Syncer, set_pending, drop_pending, promote, is_complete, with_status}

-- What other nodes can rely on for a remote node of the cluster.
abbrev pub IsServing : Node → Type 0
IsServing n = (n.proxy_addr ≢ []) × (n.admin_addr ≢ []) × (n.status ≢ unset)

pub record Splits (y : Syncer) : Type 0 where
  pub pending :
      (k : GoString) (n : Node)
      → lookup k y.pending_nodes ≡ some n
      → (n.id ≡ k) × (k ≢ y.cluster_state.local_id) × (lookup k y.cluster_state.nodes ≡ none)
  pub joined :
      (k : GoString) (n : Node)
      → lookup k y.cluster_state.nodes ≡ some n
      → (n.id ≡ k) × ((k ≡ y.cluster_state.local_id) ⊎ IsServing n)

abbrev pub with_cluster : Syncer → State → Syncer
with_cluster y s = record y { cluster_state = s }

module _ (y : Syncer) (id : GoString) (h : Splits y) where
  pub put_node-Splits :
      (n n' : Node)
      → lookup id y.cluster_state.nodes ≡ some n
      → n'.id ≡ n.id
      → (id ≡ y.cluster_state.local_id) ⊎ IsServing n'
      → Splits (with_cluster y (put_node y.cluster_state id n'))
  put_node-Splits n n' found same serving = record {
    pending = λ k m e.
        ground (arith, h.pending k m e, found, lookup-insert id k n' y.cluster_state.nodes);
    joined = λ k m e. ground (
      arith,
      h.joined k m,
      h.joined id n found,
      same,
      serving,
      e,
      lookup-insert id k n' y.cluster_state.nodes,
    );
  }

  pub set_pending-Splits :
      (n : Node)
      → n.id ≡ id
      → id ≢ y.cluster_state.local_id
      → lookup id y.cluster_state.nodes ≡ none
      → Splits (set_pending y id n)
  set_pending-Splits n same remote unknown = record {
    pending = λ k m e.
        ground
          (arith, h.pending k m, same, remote, unknown, e, lookup-insert id k n y.pending_nodes);
    joined = h.joined;
  }

  pub drop_pending-Splits : Splits (drop_pending y id)
  drop_pending-Splits = record {
    pending = λ k m e. ground (arith, h.pending k m, e, lookup-delete id k y.pending_nodes);
    joined = h.joined;
  }

  pub remove-Splits :
      Splits (with_cluster y (record y.cluster_state { nodes = delete id y.cluster_state.nodes }))
  remove-Splits = record {
    pending = λ k m e. ground (arith, h.pending k m e, lookup-delete id k y.cluster_state.nodes);
    joined = λ k m e. ground (arith, h.joined k m, e, lookup-delete id k y.cluster_state.nodes);
  }

  -- A node that is served joins the cluster, and is pending no more.
  join-Splits :
      (n : Node)
      → n.id ≡ id
      → id ≢ y.cluster_state.local_id
      → IsServing n
      → Splits (with_cluster (drop_pending y id) (put_node y.cluster_state id n))
  join-Splits n same remote serving = record {
    pending = λ k m e. ground (
      arith,
      h.pending k m,
      e,
      lookup-delete id k y.pending_nodes,
      lookup-insert id k n y.cluster_state.nodes,
    );
    joined = λ k m e.
        ground (arith, h.joined k m, same, serving, e, lookup-insert id k n y.cluster_state.nodes);
  }

pub with_status_id : (n : Node) → (with_status n).id ≡ n.id
with_status_id n = ground arith

with_status-IsServing : (n : Node) → is_complete n ≡ true → IsServing (with_status n)
with_status-IsServing n complete = ground (arith, complete)

pub add_node_put :
    (s : State) (id : GoString) (n : Node)
    → n.id ≡ id
    → id ≢ s.local_id
    → (add_node s n).0 ≡ put_node s id n
unfolding add_node
add_node_put s id n same remote = ground (arith, same, remote)

pub promote-Splits :
    (y : Syncer) (id : GoString) (n : Node)
    → Splits y
    → n.id ≡ id
    → id ≢ y.cluster_state.local_id
    → lookup id y.cluster_state.nodes ≡ none
    → Splits (promote y id n).0
unfolding promote
promote-Splits y id n h same remote unknown = elim (Bool-cases (is_complete n)) [
  | inr partial ↦ rw (partial, promote) (set_pending-Splits y id h n same remote unknown)
  | inl complete ↦
      let joins = with_status_id n ∙ same in
      rw (complete, promote, add_node_put y.cluster_state id (with_status n) joins remote)
        (subst
          (λ j.
            Splits (with_cluster (drop_pending y j) (put_node y.cluster_state id (with_status n))))
          (sym same)
          (join-Splits y id h (with_status n) joins remote (with_status-IsServing n complete)))
]
