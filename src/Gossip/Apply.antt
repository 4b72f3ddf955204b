-- ===== src/Gossip/Apply.antt =====
-- pkg/gossip/state.go: how a node takes in what another tells it.
use pico.Prelude.{
  ℕ, ◌+◌, GoString, lookup, insert, delete, values, true, false, List, [], ◌∷◌, ◌++◌, Option, none,
  some, ite, str_dec, leb, if◌then◌else◌,
}
use pico.Strconv.{parse_uint}
use pico.Gossip.Types.{
  Time, Entry, NodeState, DigestEntry, Digest, DeltaEntry, Delta, Effect, event, on_join, on_leave,
  on_upsert_key, on_delete_key, left_key, compact_key, node_expiry, metrics_delete_entry,
  metrics_upsert_entry,
}
use pico.Gossip.State.{ClusterState, new_node}

-- One entry of `ApplyDigest`: a node that is new and has not left is discovered.
unfoldable pub apply_digest_entry : ClusterState → DigestEntry → ClusterState × List Effect
apply_digest_entry s d = elim (lookup d.id s.nodes) [
  | some n ↦ (s, [])
  | none ↦ if d.left then (s, []) else (
    record s { nodes = insert d.id (new_node d.id d.addr) s.nodes },
    event (on_join d.id) ∷ [],
  )
]

-- `ApplyDigest`
unfoldable pub apply_digest : ClusterState → Digest → ClusterState × List Effect
unfolding apply_digest_entry
apply_digest s [] = (s, [])
apply_digest s (d ∷ ds) =
    let (s', effects) = apply_digest_entry s d in
    let (s'', effects') = apply_digest s' ds in (s'', effects ++ effects')

-- What is called for an entry that a compaction discards.
abbrev pub discard_effects : GoString → GoString → Entry → List Effect
discard_effects node_id state_id e =
    metrics_delete_entry state_id e
    ++ (if e.deleted then [] else event (on_delete_key node_id e.key) ∷ [])

-- The loop that discards all up to a compaction, over the entries that the map held at its start.
unfoldable pub discard_upto : GoString → ℕ → List Entry → NodeState → NodeState × List Effect
discard_upto node_id compact_version [] n = (n, [])
discard_upto node_id compact_version (e ∷ es) n =
    let old = leb e.version compact_version in
    let (n', effects) =
      discard_upto node_id compact_version es
        (if old then record n { entries = delete e.key n.entries } else n) in
    (n', (if old then discard_effects node_id n.id e else []) ++ effects)

-- The entry is stored, and its version is the node's.
abbrev pub store : NodeState → Entry → NodeState
store n e = record n {
  metadata = record n.metadata { version = e.version };
  entries = insert e.key e n.entries;
}

-- What follows for an entry that is stored. `none` is the early return at a compaction whose
-- version does not parse; the store stays.
unfoldable pub after_store : GoString → Time → NodeState → Entry → Option (NodeState × List Effect)
unfolding discard_upto
after_store node_id now n e =
    if e.internal
    then ite (str_dec e.key left_key)
        (some (
          record n { metadata = record n.metadata { left = true; expiry = now + node_expiry } },
          event (on_leave node_id) ∷ [],
        ))
        (ite (str_dec e.key compact_key)
          (elim (parse_uint e.value) [
            | none ↦ none
            | some compact_version ↦
                some (discard_upto node_id compact_version (values n.entries) n)
          ])
          (some (n, [])))
    else some (
      n,
      (if e.deleted
          then event (on_delete_key node_id e.key) ∷ []
          else event (on_upsert_key node_id e.key e.value) ∷ []),
    )

-- The loop of `applyDeltaEntry` over the entries of the delta. `none` for the rest of a round is
-- the early return.
unfoldable pub apply_entries : GoString → Time → List Entry → NodeState → NodeState × List Effect
unfolding after_store
apply_entries node_id now [] n = (n, [])
apply_entries node_id now (e ∷ es) n =
    let stored = metrics_upsert_entry n.id e (lookup e.key n.entries) in
    elim (leb e.version n.version) [
      | true ↦ apply_entries node_id now es n
      | false ↦ elim (after_store node_id now (store n e) e) [
        | none ↦ (store n e, stored)
        | some (n', effects) ↦
            let (n'', effects') = apply_entries node_id now es n' in
            (n'', stored ++ effects ++ effects')
      ]
    ]

-- The node of the delta as it is found, with what its discovery calls.
abbrev pub found_or_joined : DeltaEntry → Option NodeState → NodeState × List Effect
found_or_joined d (some n) = (n, [])
found_or_joined d none = (new_node d.id d.addr, event (on_join d.id) ∷ [])

-- `applyDeltaEntry`
unfoldable pub apply_delta_entry : ClusterState → Time → DeltaEntry → ClusterState × List Effect
unfolding apply_entries
apply_delta_entry s now d =
    let (n, joined) = found_or_joined d (lookup d.id s.nodes) in
    let (n', effects) = apply_entries d.id now d.entries n in
    ite (str_dec d.id s.local_id) (s, [])
      (record s { nodes = insert d.id n' s.nodes }, joined ++ effects)

-- `ApplyDelta`
unfoldable pub apply_delta : ClusterState → Time → Delta → ClusterState × List Effect
unfolding apply_delta_entry
apply_delta s now [] = (s, [])
apply_delta s now (d ∷ ds) =
    let (s', effects) = apply_delta_entry s now d in
    let (s'', effects') = apply_delta s' now ds in (s'', effects ++ effects')
