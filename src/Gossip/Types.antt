-- ===== src/Gossip/Types.antt =====
-- pkg/gossip/state.go: the types of the gossip state, and the clock values that they hold.
use pico.Prelude.{
  ℕ, ◌+◌, ◌*◌, ◌%◌, ◌^◌, GoString, codes, GoMap, Bool, false, List, [], ◌∷◌, ◌++◌, Option, none,
  some, ite, str_dec,
}

-- A `time.Time` in nanoseconds; 0 is the zero value, `time.Time{}`.
abbrev pub Time : Type 0
Time = ℕ

abbrev pub left_key : GoString
left_key = codes "_internal:left"

abbrev pub compact_key : GoString
compact_key = codes "_internal:compact"

-- A minute.
abbrev pub node_expiry : ℕ
node_expiry = 60 * 10 ^ 9

-- `state.Version++` on a uint64.
unfoldable pub next_version : ℕ → ℕ
next_version v = (v + 1) % 2 ^ 64

pub record Entry : Type 0 where
  pub key : GoString
  pub value : GoString
  pub version : ℕ
  pub internal : Bool
  pub deleted : Bool

pub record NodeMetadata : Type 0 where
  pub id : GoString
  pub addr : GoString
  pub version : ℕ
  pub left : Bool
  pub unreachable : Bool
  pub expiry : Time

-- The metadata of a node that was just discovered: the fields that the literal leaves out are zero.
abbrev pub new_metadata : GoString → GoString → NodeMetadata
new_metadata id addr = record {
  id = id;
  addr = addr;
  version = 0;
  left = false;
  unreachable = false;
  expiry = 0;
}

-- `NodeState`, the exported view with its entries in order of version.
pub record NodeView : Type 0 where
  pub metadata : NodeMetadata
  pub entries : List Entry

-- `nodeState`
pub record NodeState : Type 0 where
  pub metadata : NodeMetadata
  pub open metadata use *
  pub entries : GoMap Entry

pub record DigestEntry : Type 0 where
  pub id : GoString
  pub addr : GoString
  pub version : ℕ
  pub left : Bool

abbrev pub Digest : Type 0
Digest = List DigestEntry

pub record DeltaEntry : Type 0 where
  pub id : GoString
  pub addr : GoString
  pub entries : List Entry

abbrev pub Delta : Type 0
Delta = List DeltaEntry

-- `Watcher`: a call that the state makes of it.
pub data Event : Type 0 where
  on_join : GoString → Event
  on_leave : GoString → Event
  on_reachable : GoString → Event
  on_unreachable : GoString → Event
  on_upsert_key : GoString → GoString → GoString → Event
  on_delete_key : GoString → GoString → Event
  on_expired : GoString → Event

-- A call on the gauge of entries, by its labels: the node, and the entry's two flags.
pub data GaugeCall : Type 0 where
  inc : GoString → Bool → Bool → GaugeCall
  dec : GoString → Bool → Bool → GaugeCall
  delete_partial_match : GoString → GaugeCall

-- What an operation calls outside the state, in order.
pub data Effect : Type 0 where
  event : Event → Effect
  gauge : GaugeCall → Effect

-- The zero value of an entry.
abbrev pub zero_entry : Entry
zero_entry = record { key = []; value = []; version = 0; internal = false; deleted = false }

-- `metricsAddEntry`
unfoldable pub metrics_add_entry : GoString → Entry → List Effect
metrics_add_entry node_id e = gauge (inc node_id e.internal e.deleted) ∷ []

-- `metricsDeleteEntry`
unfoldable pub metrics_delete_entry : GoString → Entry → List Effect
metrics_delete_entry node_id e = gauge (dec node_id e.internal e.deleted) ∷ []

-- `metricsUpsertEntry`; an absent entry is the zero value.
unfoldable pub metrics_upsert_entry : GoString → Entry → Option Entry → List Effect
unfolding metrics_add_entry metrics_delete_entry
metrics_upsert_entry node_id new none = metrics_add_entry node_id new
metrics_upsert_entry node_id new (some existing) =
    ite (str_dec existing.key []) [] (metrics_delete_entry node_id existing)
    ++ metrics_add_entry node_id new
