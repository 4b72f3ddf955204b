-- ===== src/Gossip/Sync/Owner.antt =====
-- pkg/gossip/state.go: the updates of the owner of a state, and its copies.
use pico.Prelude.{
  ℕ, suc, ◌+◌, ◌^◌, ◌<◌, ◌≡◌, ◌≢◌, ◌⊎◌, ◌∙◌, refl, sym, subst, inl, inr, GoString, lookup, insert,
  values, List, [], some, Option, arith, length, dec_lt, Option-cases,
}
use pico.Gossip.Types.{Entry, NodeState, Effect, left_key, compact_key, next_version}
use pico.Gossip.Sort.{sort_by_version}
use pico.Gossip.Local.{
  upsert_node, delete_node, leave_node, compact_node, compact_write, last_entry, count_deleted,
  plain_entry, tombstone, internal_entry,
}
use pico.Gossip.State.{new_node}
use pico.Gossip.Floor.{left_key-ne-compact_key}
use pico.Gossip.Sync.{Consistent, WellFormed}
use pico.Gossip.Sync.Write.{write-Consistent, write-WellFormed}
use pico.Gossip.Sync.Reversion.{next_version_lem}
use pico.Gossip.Sync.Compact.{compact-Consistent, compact-WellFormed, version-last_entry}

-- The four updates of the local node, as `clusterState` offers them.
pub data LocalOp : Type 0 where
  upsert : GoString → GoString → LocalOp
  delete : GoString → LocalOp
  leave : LocalOp
  compact : ℕ → LocalOp

unfoldable pub run_op : LocalOp → NodeState → Option (NodeState × List Effect)
run_op (upsert key value) n = some (upsert_node n key value)
run_op (delete key) n = some (delete_node n key)
run_op leave n = some (leave_node n)
run_op (compact threshold) n = compact_node n threshold

-- A caller keeps off the key of compactions.
abbrev pub IsAllowed : LocalOp → Type 0
IsAllowed (upsert key value) = key ≢ compact_key
IsAllowed (delete key) = key ≢ compact_key
IsAllowed leave = Unit
IsAllowed (compact threshold) = Unit

-- The versions that one update gives out fit in 64 bits.
abbrev pub HasRoom : NodeState → Type 0
HasRoom n = n.version + length (sort_by_version (values n.entries)) + 1 < 2 ^ 64

-- The new state is well formed, and every copy of the old state is a copy of it.
pub record Kept (o o' : NodeState) : Type 0 where
  pub well : WellFormed o'
  pub copies : (n : NodeState) → Consistent o n → Consistent o' n

Kept-refl : (o : NodeState) → WellFormed o → Kept o o
Kept-refl o w = record { well = w; copies = λ n c. c }

Kept-write :
    (o o' : NodeState) (e : Entry)
    → WellFormed o
    → e.key ≢ compact_key
    → o'.entries ≡ insert e.key e o.entries
    → o'.version ≡ e.version
    → e.version ≡ suc o.version
    → Kept o o'
Kept-write o o' e w plain entries' version' next = record {
  well = write-WellFormed o o' e w plain entries' version' next;
  copies = write-Consistent o o' e w plain entries' version' next;
}

module _ (o : NodeState) (w : WellFormed o) (room : HasRoom o) where
  next : next_version o.version ≡ suc o.version
  next = next_version_lem o.version (omega arith)

  -- An update leaves the state or writes `e` as `Kept-write` wants it.
  from_cases :
      (o' : NodeState) (e : Entry)
      → e.key ≢ compact_key
      → e.version ≡ next_version o.version
      → (o' ≡ o) ⊎ ((o'.entries ≡ insert e.key e o.entries) × (o'.version ≡ e.version))
      → Kept o o'
  from_cases o' e plain version (inl same) = subst (Kept o) (sym same) (Kept-refl o w)
  from_cases o' e plain version (inr (entries', version')) =
      Kept-write o o' e w plain entries' version' (version ∙ next)

  upsert-Kept : (key value : GoString) → key ≢ compact_key → Kept o (upsert_node o key value).0
  unfolding upsert_node
  upsert-Kept key value plain =
      from_cases (upsert_node o key value).0 (plain_entry key value (next_version o.version)) plain
        refl (ground arith)

  delete-Kept : (key : GoString) → key ≢ compact_key → Kept o (delete_node o key).0
  unfolding delete_node
  delete-Kept key plain = elim (Option-cases (lookup key o.entries)) [
    | inl missing ↦ subst (Kept o) (ground arith) (Kept-refl o w)
    | inr (e, found) ↦
        let at = w.keyed key e found in
        from_cases (delete_node o key).0 (tombstone e (next_version o.version))
          (λ p. plain (sym at ∙ p)) refl (ground arith)
  ]

  leave-Kept : Kept o (leave_node o).0
  unfolding leave_node
  leave-Kept =
      from_cases (leave_node o).0 (internal_entry left_key [] (next_version o.version))
        left_key-ne-compact_key refl (ground arith)

  compact-Kept :
      (threshold : ℕ) (r : NodeState × List Effect) → compact_node o threshold ≡ some r → Kept o r.0
  unfolding compact_node
  compact-Kept threshold r h = elim (dec_lt (count_deleted (values o.entries)) threshold) [
    | yes few ↦ subst (Kept o) (ground arith) (Kept-refl o w)
    | no p ↦ elim (Option-cases (last_entry (sort_by_version (values o.entries)))) [
      | inl empty ↦ absurd (ground arith)
      | inr (l, last) ↦
          let same : (compact_write o (sort_by_version (values o.entries)) o.version).0 ≡ r.0 =
            ground (arith, version-last_entry o l w last) in
          subst (Kept o) same (record {
            well = compact-WellFormed o _ w room;
            copies = compact-Consistent o _ w room;
          })
    ]
  ]

  -- Whatever update the owner of a well-formed state makes, off the compaction key and with room
  -- for the versions: the new state is well formed, and every copy of the old state is a copy of
  -- it.
  pub run_op-Kept :
      (op : LocalOp) (r : NodeState × List Effect)
      → IsAllowed op
      → run_op op o ≡ some r
      → Kept o r.0
  unfolding run_op
  run_op-Kept (upsert key value) r ok h = subst (Kept o) (ground arith) (upsert-Kept key value ok)
  run_op-Kept (delete key) r ok h = subst (Kept o) (ground arith) (delete-Kept key ok)
  run_op-Kept leave r ok h = subst (Kept o) (ground arith) leave-Kept
  run_op-Kept (compact threshold) r ok h = compact-Kept threshold r h

-- An empty state is a copy of every state whose versions are positive.
pub new_node-Consistent :
    (owner : NodeState) (id addr : GoString)
    → ((k : GoString) (e : Entry) → lookup k owner.entries ≡ some e → 0 < e.version)
    → Consistent owner (new_node id addr)
unfolding lookup
new_node-Consistent owner id addr positive = record {
  distinct = tt;
  behind = omega arith;
  current = λ k e h le. absurd (omega (arith, positive k e h));
  keyed = λ k e h. cc;
  positive = λ k e h. cc;
  seen = λ k e h. cc;
  parses = λ k e h. cc;
  below = λ k e h. cc;
  above = λ k j e x h g. cc;
  fate = λ k e h. cc;
  unique = λ k j e x h g p. cc;
  top = inl refl;
}

-- A node that was just created is well formed.
pub new_node-WellFormed : (id addr : GoString) → WellFormed (new_node id addr)
unfolding lookup
new_node-WellFormed id addr = new_node-Consistent (new_node id addr) id addr (λ k e h. cc)
