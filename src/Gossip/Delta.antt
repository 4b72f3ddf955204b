-- ===== src/Gossip/Delta.antt =====
-- pkg/gossip/state.go: digests and deltas, what a node tells another of what it knows.
use pico.Prelude.{
  ℕ, GoString, lookup, values, Bool, true, false, List, [], ◌∷◌, ◌++◌, Option, none, some, str_dec,
  leb, if◌then◌else◌, ◌>>=◌, GoMap,
}
use pico.Gossip.Types.{Entry, NodeState, Digest, DeltaEntry, Delta}
use pico.Gossip.Sort.{sort_by_version}
use pico.Gossip.State.{ClusterState, local_state}

unfoldable pub digest_of : List NodeState → Digest
digest_of [] = []
digest_of (n ∷ ns) =
    record { id = n.id; addr = n.addr; version = n.version; left = n.left } ∷ digest_of ns

-- `Digest`
unfoldable pub digest : ClusterState → Digest
unfolding digest_of
digest s = digest_of (values s.nodes)

-- The entries above a version, the loop of `deltaEntry`.
unfoldable pub newer : ℕ → List Entry → List Entry
newer from_version [] = []
newer from_version (e ∷ es) =
    let rest = newer from_version es in if leb e.version from_version then rest else e ∷ rest

-- `deltaEntry`, for the state that the map holds under the node's ID.
unfoldable pub delta_entry : NodeState → ℕ → DeltaEntry
unfolding newer
delta_entry n from_version = record {
  id = n.id;
  addr = n.addr;
  entries = sort_by_version (newer from_version (values n.entries));
}

-- A delta for a node that the sender has, if it holds something new.
abbrev pub with_entries : DeltaEntry → Delta → Delta
with_entries d rest = elim d.entries [ [] ↦ rest | e ∷ es ↦ d ∷ rest ]

-- The first loop of `Delta`.
unfoldable pub delta_known : GoMap NodeState → Digest → Delta
unfolding delta_entry
delta_known nodes [] = []
delta_known nodes (d ∷ ds) =
    let rest = delta_known nodes ds in
    elim (lookup d.id nodes) [ none ↦ rest | some n ↦ with_entries (delta_entry n d.version) rest ]

-- `_, ok := digestNodes[id]`
unfoldable pub in_digest : GoString → Digest → Bool
in_digest id [] = false
in_digest id (d ∷ ds) = elim (str_dec d.id id) [ yes p ↦ true | no p ↦ in_digest id ds ]

-- The second loop of `Delta`, over the nodes that a full digest left out.
unfoldable pub delta_unknown : GoMap NodeState → Digest → Delta
unfolding delta_entry
delta_unknown [] ds = []
delta_unknown ((id, n) ∷ nodes) ds =
    let rest = delta_unknown nodes ds in if in_digest id ds then rest else delta_entry n 0 ∷ rest

-- `Delta`
unfoldable pub delta : ClusterState → Digest → Bool → Delta
unfolding delta_known delta_unknown
delta s ds full_digest =
    delta_known s.nodes ds ++ (if full_digest then delta_unknown s.nodes ds else [])

-- `LocalDelta`
unfoldable pub local_delta : ClusterState → Option Delta
unfolding delta_entry
local_delta s = do n ← local_state s; some (delta_entry n 0 ∷ [])
