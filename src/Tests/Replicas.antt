-- ===== src/Tests/Replicas.antt =====
-- pkg/gossip/state.go: a node with one key, and what another node copies of it.
use Prim.Native.Nat.{max}
use pico.Prelude.{
  values, ◌≡◌, refl, GoString, codes, lookup, insert, values, [], ◌∷◌, some, arith, false, str_dec,
  ite,
}
use pico.Gossip.Types.{
  Entry, NodeState, gauge, inc, new_metadata, next_version, metrics_upsert_entry, metrics_add_entry,
}
use pico.Gossip.Sort.{sort_by_version, insert_by_version}
use pico.Gossip.State.{new_node}
use pico.Gossip.Local.{plain_entry, upsert_node}
use pico.Gossip.Delta.{delta_entry, newer}
use pico.Gossip.Apply.{apply_entries}
use pico.Gossip.Sync.{Consistent, WellFormed}
use pico.Gossip.Discard.{kept_above, lookup-discard_upto}
use pico.Gossip.Apply.{discard_upto}
use pico.Gossip.Sync.Loop.{Caught}
use pico.Gossip.Sync.Exchange.{exchange-Caught}
use pico.Gossip.Sync.Converge.{exchange-version}
use pico.Gossip.Sync.Owner.{
  upsert, run_op, Kept, run_op-Kept, new_node-Consistent, new_node-WellFormed,
}
use pico.Gossip.Published.{published, published-upsert_node}

abbrev pub a_id : GoString
a_id = codes "a"

abbrev pub a_addr : GoString
a_addr = codes "10.0.0.1:7000"

abbrev pub empty : NodeState
empty = new_node a_id a_addr

abbrev pub entry : Entry
entry = plain_entry (codes "k") (codes "v") 1

abbrev pub one : NodeState
one = record {
  metadata = record (new_metadata a_id a_addr) { version = 1 };
  entries = (codes "k", entry) ∷ [];
}

pub run :
    run_op (upsert (codes "k") (codes "v")) empty ≡ some (one, gauge (inc a_id false false) ∷ [])
unfolding run_op upsert_node lookup insert next_version metrics_upsert_entry metrics_add_entry
run = refl

run_op-Kept_example : Kept empty one
unfolding sort_by_version values
run_op-Kept_example =
    run_op-Kept empty (new_node-WellFormed a_id a_addr) (omega arith)
      (upsert (codes "k") (codes "v")) (one, gauge (inc a_id false false) ∷ []) (λ p. cc) run

-- The state is well formed, and the empty state is a copy of it.
pub one-WellFormed : WellFormed one
unfolding sort_by_version values
one-WellFormed =
    (run_op-Kept empty (new_node-WellFormed a_id a_addr) (omega arith)
      (upsert (codes "k") (codes "v")) (one, gauge (inc a_id false false) ∷ []) (λ p. cc) run).well

pub copy-Consistent : Consistent one empty
copy-Consistent = new_node-Consistent one a_id a_addr one-WellFormed.positive

exchange-Caught_example :
    Caught one one empty (apply_entries a_id 9 (entry ∷ []) empty).0 (entry ∷ [])
unfolding delta_entry newer values sort_by_version insert_by_version
exchange-Caught_example =
    exchange-Caught one one empty one-WellFormed copy-Consistent a_id 9 0 (omega arith) (entry ∷ [])
      [] refl

exchange-version_example :
    Consistent one (apply_entries a_id 9 (delta_entry one 0).entries empty).0
    × ((apply_entries a_id 9 (delta_entry one 0).entries empty).0.version ≡ max 0 1)
exchange-version_example =
    exchange-version one one empty one-WellFormed copy-Consistent a_id 9 0 (omega arith)

published-upsert_node_example :
    published (upsert_node one (codes "k") (codes "w")).0 (codes "k")
    ≡ ite (str_dec (codes "k") (codes "k")) (some (codes "w")) (published one (codes "k"))
unfolding lookup
published-upsert_node_example =
    published-upsert_node one (codes "k") (codes "w") (codes "k") (λ k e h d. ground arith)
      (λ p. cc)

lookup-discard_upto_example :
    lookup (codes "k") (discard_upto a_id 1 (values one.entries) one).0.entries
    ≡ kept_above 1 (lookup (codes "k") one.entries)
unfolding lookup
lookup-discard_upto_example =
    lookup-discard_upto a_id 1 one (codes "k") one-WellFormed.keyed one-WellFormed.distinct
