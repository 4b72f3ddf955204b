-- ===== src/Gossip/Local.antt =====
-- pkg/gossip/state.go: the updates of the local node's own entries.
use pico.Prelude.{
  ℕ, ◌+◌, GoString, lookup, insert, values, Bool, true, false, ◌&&◌, List, [], ◌∷◌, ◌++◌, Option,
  none, some, ite, str_dec, dec_lt, if◌then◌else◌, ◌>>=◌,
}
use pico.Strconv.{format_uint}
use pico.Gossip.Types.{
  Entry, NodeState, Effect, gauge, delete_partial_match, left_key, compact_key, next_version,
  metrics_add_entry, metrics_upsert_entry,
}
use pico.Gossip.Sort.{sort_by_version}
use pico.Gossip.State.{ClusterState, Outcome, local_state, put_local}

-- `state.Version++`, and an entry with the new version under its key.
abbrev pub write_entry : NodeState → Entry → NodeState
write_entry n e = record n {
  metadata = record n.metadata { version = e.version };
  entries = insert e.key e n.entries;
}

abbrev pub plain_entry : GoString → GoString → ℕ → Entry
plain_entry key value version = record {
  key = key;
  value = value;
  version = version;
  internal = false;
  deleted = false;
}

-- The write that `UpsertLocal` makes.
upsert_write : NodeState → GoString → GoString → NodeState × List Effect
upsert_write n key value =
    let new = plain_entry key value (next_version n.version) in
    (write_entry n new, metrics_upsert_entry n.id new (lookup key n.entries))

-- The body of `UpsertLocal` on the node's state.
unfoldable pub upsert_node : NodeState → GoString → GoString → NodeState × List Effect
unfolding upsert_write
upsert_node n key value = elim (lookup key n.entries) [
  | none ↦ upsert_write n key value
  | some existing ↦ ite (str_dec existing.value value) (n, []) (upsert_write n key value)
]

-- The tombstone that `DeleteLocal` leaves.
abbrev pub tombstone : Entry → ℕ → Entry
tombstone existing version = record {
  key = existing.key;
  value = [];
  version = version;
  internal = existing.internal;
  deleted = true;
}

-- The write that `DeleteLocal` makes; it is under the map's key.
delete_write : NodeState → GoString → Entry → NodeState × List Effect
delete_write n key existing =
    let new = tombstone existing (next_version n.version) in
    (
      record n {
        metadata = record n.metadata { version = new.version };
        entries = insert key new n.entries;
      },
      metrics_upsert_entry n.id new (some existing),
    )

-- The body of `DeleteLocal`.
unfoldable pub delete_node : NodeState → GoString → NodeState × List Effect
unfolding delete_write
delete_node n key = elim (lookup key n.entries) [
  | none ↦ (n, [])
  | some existing ↦ if existing.deleted then (n, []) else delete_write n key existing
]

abbrev pub internal_entry : GoString → GoString → ℕ → Entry
internal_entry key value version = record {
  key = key;
  value = value;
  version = version;
  internal = true;
  deleted = false;
}

-- The body of `LeaveLocal`.
unfoldable pub leave_node : NodeState → NodeState × List Effect
leave_node n =
    let new = internal_entry left_key [] (next_version n.version) in
    if n.left then (n, []) else (
      write_entry (record n { metadata = record n.metadata { left = true } }) new,
      metrics_add_entry n.id new,
    )

-- The first loop of `CompactLocal`.
unfoldable pub count_deleted : List Entry → ℕ
count_deleted [] = 0
count_deleted (e ∷ es) = (if e.deleted then 1 else 0) + count_deleted es

-- `entries[len(entries)-1]`
unfoldable pub last_entry : List Entry → Option Entry
last_entry [] = none
last_entry (e ∷ []) = some e
last_entry (e ∷ e' ∷ es) = last_entry (e' ∷ es)

-- What a compaction discards: deleted entries and the entry of an earlier compaction.
unfoldable pub is_discarded : Entry → Bool
is_discarded e =
    if e.deleted then true else e.internal && ite (str_dec e.key compact_key) true false

-- One round of the loop that versions the kept entries anew.
unfoldable pub reversion : NodeState → Entry → NodeState
unfolding is_discarded
reversion n e =
    if is_discarded e then n else write_entry n (record e { version = next_version n.version })

unfoldable pub reversion_all : NodeState → List Entry → NodeState
reversion_all n [] = n
reversion_all n (e ∷ es) = reversion_all (reversion n e) es

-- The gauge calls of that loop.
unfoldable pub reversion_effects : GoString → List Entry → List Effect
unfolding is_discarded
reversion_effects id [] = []
reversion_effects id (e ∷ es) =
    (if is_discarded e then [] else metrics_add_entry id e) ++ reversion_effects id es

-- The entry that ends a compaction: all up to `compact_version` can be discarded.
abbrev pub compact_entry : ℕ → ℕ → Entry
compact_entry compact_version version =
    internal_entry compact_key (format_uint compact_version) version

-- The rest of `CompactLocal`, over the sorted entries and the last version that is discarded.
unfoldable pub compact_write : NodeState → List Entry → ℕ → NodeState × List Effect
unfolding reversion_all reversion_effects
compact_write n entries compact_version =
    let kept = reversion_all (record n { entries = [] }) entries in
    let new = compact_entry compact_version (next_version kept.version) in
    (
      write_entry kept new,
      gauge (delete_partial_match n.id)
          ∷ (reversion_effects n.id entries ++ metrics_add_entry n.id new),
    )

-- The body of `CompactLocal`; with no entries and a threshold of 0 it indexes an empty slice.
unfoldable pub compact_node : NodeState → ℕ → Option (NodeState × List Effect)
unfolding count_deleted compact_write
compact_node n threshold =
    let entries = sort_by_version (values n.entries) in
    ite (dec_lt (count_deleted (values n.entries)) threshold) (some (n, []))
      (last_entry entries >>= λ last. some (compact_write n entries last.version))

-- An operation on the local node's state, which the nodes map points to.
abbrev pub on_local : ClusterState → (NodeState → Option (NodeState × List Effect)) → Outcome
on_local s f = do n ← local_state s; (n', effects) ← f n; some (put_local s n', effects)

-- `UpsertLocal`
unfoldable pub upsert_local : ClusterState → GoString → GoString → Outcome
unfolding upsert_node
upsert_local s key value = on_local s λ n. some (upsert_node n key value)

-- `DeleteLocal`
unfoldable pub delete_local : ClusterState → GoString → Outcome
unfolding delete_node
delete_local s key = on_local s λ n. some (delete_node n key)

-- `LeaveLocal`
unfoldable pub leave_local : ClusterState → Outcome
unfolding leave_node
leave_local s = on_local s λ n. some (leave_node n)

-- `CompactLocal`
unfoldable pub compact_local : ClusterState → ℕ → Outcome
unfolding compact_node
compact_local s threshold = on_local s λ n. compact_node n threshold
