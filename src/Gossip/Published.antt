-- ===== src/Gossip/Published.antt =====
-- What a node publishes of itself: the value of each key that is not deleted.
use pico.Prelude.{
  ◌≡◌, ◌≢◌, GoString, lookup, insert, [], Option, none, some, arith, ite, str_dec, true,
  if◌then◌else◌, lookup-insert, Option-cases, Bool-cases, inl, inr,
}
use pico.Gossip.Types.{Entry, NodeState, next_version}
use pico.Gossip.Local.{upsert_node, delete_node, plain_entry, tombstone}

abbrev pub live_value : Option Entry → Option GoString
live_value none = none
live_value (some e) = if e.deleted then none else some e.value

abbrev pub published : NodeState → GoString → Option GoString
published n k = live_value (lookup k n.entries)

-- A deleted entry holds no value.
abbrev pub HasTombstones : NodeState → Type 0
HasTombstones n =
    (k : GoString) (e : Entry) → lookup k n.entries ≡ some e → e.deleted ≡ true → e.value ≡ []

module _ (n : NodeState) (k : GoString) where
  -- If deleted entries hold no value, an update of a key to a value that is not empty publishes
  -- the value and touches no other key.
  pub published-upsert_node :
      (v : GoString) (j : GoString)
      → HasTombstones n
      → v ≢ []
      → published (upsert_node n k v).0 j ≡ ite (str_dec k j) (some v) (published n j)
  unfolding upsert_node
  published-upsert_node v j tombs ne = elim (Option-cases (lookup k n.entries)) [
    | inl missing ↦ ground (arith, missing, written)
    | inr (e, found) ↦ ground (arith, found, tombs k e found, written)
  ]
    where
      written :
          lookup j (insert k (plain_entry k v (next_version n.version)) n.entries)
          ≡ ite (str_dec k j) (some (plain_entry k v (next_version n.version))) (lookup j n.entries)
      written = lookup-insert k j _ n.entries

  pub upsert_node-HasTombstones :
      (v : GoString) → HasTombstones n → HasTombstones (upsert_node n k v).0
  unfolding upsert_node
  upsert_node-HasTombstones v tombs j x h d = elim (Option-cases (lookup k n.entries)) [
    | inl missing ↦ ground (arith, missing, tombs j x, written)
    | inr (e, found) ↦ ground (arith, found, tombs j x, written)
  ]
    where
      written :
          lookup j (insert k (plain_entry k v (next_version n.version)) n.entries)
          ≡ ite (str_dec k j) (some (plain_entry k v (next_version n.version))) (lookup j n.entries)
      written = lookup-insert k j _ n.entries

  -- A deletion of a key ends its publication and touches no other key.
  published-delete_node :
      (j : GoString) → published (delete_node n k).0 j ≡ ite (str_dec k j) none (published n j)
  unfolding delete_node
  published-delete_node j = elim (Option-cases (lookup k n.entries)) [
    | inl missing ↦ ground (arith, missing)
    | inr (e, found) ↦ elim (Bool-cases e.deleted) [
      | inl gone ↦ ground (arith, found, gone)
      | inr kept ↦
          ground
            (arith, found, kept, lookup-insert k j (tombstone e (next_version n.version)) n.entries)
    ]
  ]

  pub delete_node-HasTombstones : HasTombstones n → HasTombstones (delete_node n k).0
  unfolding delete_node
  delete_node-HasTombstones tombs j x h d = elim (Option-cases (lookup k n.entries)) [
    | inl missing ↦ ground (arith, missing, tombs j x)
    | inr (e, found) ↦ elim (Bool-cases e.deleted) [
      | inl gone ↦ ground (arith, found, gone, tombs j x)
      | inr kept ↦ ground (
        arith,
        found,
        kept,
        tombs j x,
        lookup-insert k j (tombstone e (next_version n.version)) n.entries,
      )
    ]
  ]
