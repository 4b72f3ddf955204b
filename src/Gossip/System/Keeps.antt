-- ===== src/Gossip/System/Keeps.antt =====
-- pkg/gossip/state.go: what an exchange leaves alone, IDs and the state of the node itself.
use pico.Prelude.{
  ◌≡◌, ◌∙◌, refl, GoString, lookup, values, List, [], ◌∷◌, some, arith, lookup-insert,
}
use pico.Gossip.Types.{Time, Entry, NodeState, DigestEntry, Digest, DeltaEntry, Delta, Effect}
use pico.Gossip.State.{ClusterState, new_node}
use pico.Gossip.Sort.{sort_by_version}
use pico.Gossip.Local.{reversion, reversion_all, upsert_node, delete_node, leave_node, compact_node}
use pico.Gossip.Apply.{
  apply_entries, apply_delta_entry, apply_delta, apply_digest_entry, apply_digest, found_or_joined,
}
use pico.Gossip.Sync.Owner.{LocalOp, upsert, delete, leave, compact, run_op}

id-reversion : (n : NodeState) (e : Entry) → (reversion n e).id ≡ n.id
unfolding reversion
id-reversion n e = ground arith

id-reversion_all : (es : List Entry) (n : NodeState) → (reversion_all n es).id ≡ n.id
unfolding reversion_all
id-reversion_all [] n = refl
id-reversion_all (e ∷ es) n = id-reversion_all es (reversion n e) ∙ id-reversion n e

pub id-run_op :
    (op : LocalOp) (n : NodeState) (r : NodeState × List Effect)
    → run_op op n ≡ some r
    → r.0.id ≡ n.id
unfolding run_op upsert_node delete_node leave_node compact_node
id-run_op (upsert key value) n r h = ground arith
id-run_op (delete key) n r h = ground arith
id-run_op leave n r h = ground arith
id-run_op (compact threshold) n r h =
    ground
      (arith, id-reversion_all (sort_by_version (values n.entries)) (record n { entries = [] }))

lookup-apply_digest_entry :
    (s : ClusterState) (d : DigestEntry) (id : GoString) (n : NodeState)
    → lookup id s.nodes ≡ some n
    → lookup id (apply_digest_entry s d).0.nodes ≡ some n
unfolding apply_digest_entry
lookup-apply_digest_entry s d id n h =
    ground (arith, lookup-insert d.id id (new_node d.id d.addr) s.nodes)

local_id-apply_digest_entry :
    (s : ClusterState) (d : DigestEntry) → (apply_digest_entry s d).0.local_id ≡ s.local_id
unfolding apply_digest_entry
local_id-apply_digest_entry s d = ground arith

-- A digest changes nothing that is known, nor who the node is.
pub apply_digest-keeps :
    (ds : Digest) (s : ClusterState)
    → ((apply_digest s ds).0.local_id ≡ s.local_id)
      × ((id : GoString) (n : NodeState)
          → lookup id s.nodes ≡ some n
          → lookup id (apply_digest s ds).0.nodes ≡ some n)
unfolding apply_digest
apply_digest-keeps [] s = (refl, λ id n h. h)
apply_digest-keeps (d ∷ ds) s =
    let (same, keeps) = apply_digest-keeps ds (apply_digest_entry s d).0 in
    (
      same ∙ local_id-apply_digest_entry s d,
      λ id n h. keeps id n (lookup-apply_digest_entry s d id n h),
    )

apply_delta_entry-keeps :
    (s : ClusterState) (now : Time) (d : DeltaEntry)
    → ((apply_delta_entry s now d).0.local_id ≡ s.local_id)
      × (lookup s.local_id (apply_delta_entry s now d).0.nodes ≡ lookup s.local_id s.nodes)
unfolding apply_delta_entry
apply_delta_entry-keeps s now d = ground (
  arith,
  lookup-insert d.id s.local_id
      (apply_entries d.id now d.entries (found_or_joined d (lookup d.id s.nodes)).0).0 s.nodes,
)

-- No delta changes the state of the node that takes it in, nor who it is.
pub apply_delta-keeps :
    (ds : Delta) (s : ClusterState) (now : Time)
    → ((apply_delta s now ds).0.local_id ≡ s.local_id)
      × (lookup s.local_id (apply_delta s now ds).0.nodes ≡ lookup s.local_id s.nodes)
unfolding apply_delta
apply_delta-keeps [] s now = (refl, refl)
apply_delta-keeps (d ∷ ds) s now =
    let (same, keeps) = apply_delta_entry-keeps s now d in
    let (same', keeps') = apply_delta-keeps ds (apply_delta_entry s now d).0 now in
    (same' ∙ same, rw same at keeps' ∙ keeps)
