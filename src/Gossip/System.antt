-- ===== src/Gossip/System.antt =====
-- A cluster of nodes that update their own state, discover each other and exchange deltas, in any
-- order, with deltas cut off, lost, late or delivered twice. Expiry is not a step: a node that
-- removes a state and then takes in a delta that it asked for before falls outside the relation.
pub mod Keeps
pub mod Invariant
pub mod Converge
use pico.Prelude.{GoString, ◌≡◌, lookup, ite, str_dec, some, List, [], ◌∷◌, Elem, All}
use pico.Gossip.Types.{Time, NodeState, Digest, Delta, Effect}
use pico.Gossip.Detector.{FailureDetector}
use pico.Gossip.State.{ClusterState, new_cluster_state, put_local}
use pico.Gossip.Apply.{apply_digest, apply_delta}
use pico.Gossip.Sync.Owner.{LocalOp, run_op, IsAllowed, HasRoom}
use pico.Gossip.Sync.Nodes.{Sent}

-- A delta under way, with the sender's state when it was made.
pub record Message : Type 0 where
  pub receiver : GoString
  pub sender : ClusterState
  pub delta : Delta

pub record System : Type 0 where
  pub states : GoString → ClusterState
  pub flight : List Message

abbrev pub set_state : System → GoString → ClusterState → System
set_state y id s = record y { states = λ j. ite (str_dec id j) s (y.states j) }

-- Every node starts with nothing but itself.
unfoldable pub initial : (GoString → GoString) → FailureDetector → System
initial addr detector = record {
  states = λ id. new_cluster_state id (addr id) detector;
  flight = [];
}

pub data Step (y : System) : System → Type 0 where
  -- A node updates its own state.
  update :
      (id : GoString) (op : LocalOp) (n : NodeState) (r : NodeState × List Effect)
      → IsAllowed op
      → HasRoom n
      → lookup id (y.states id).nodes ≡ some n
      → run_op op n ≡ some r
      → Step y (set_state y id (put_local (y.states id) r.0))
  -- A node takes in a digest.
  learn : (id : GoString) (ds : Digest) → Step y (set_state y id (apply_digest (y.states id) ds).0)
  -- A node sends front parts of the deltas that another asked for.
  send :
      (from to : GoString) (ds : Delta)
      → All (Sent (y.states from) (y.states to)) ds
      → Step y (record y {
        flight = record { receiver = to; sender = y.states from; delta = ds } ∷ y.flight;
      })
  -- A node takes in a delta; it stays under way.
  deliver :
      (m : Message) (now : Time)
      → Elem m y.flight
      → Step y (set_state y m.receiver (apply_delta (y.states m.receiver) now m.delta).0)

pub data Reach (y : System) : System → Type 0 where
  here : Reach y y
  next : {z w : System} → Reach y z → Step z w → Reach y w
