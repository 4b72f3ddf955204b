-- ===== src/Gossip/Sync.antt =====
-- pkg/gossip/state.go: the relation between the owner of a state and a copy of it.
pub mod Step
pub mod Loop
pub mod Exchange
pub mod Converge
pub mod Write
pub mod Reversion
pub mod Compact
pub mod Owner
pub mod Nodes
pub mod Asked
use pico.Prelude.{ℕ, ◌≤◌, ◌<◌, ◌≡◌, ◌⊎◌, GoString, Distinct, lookup, some}
use pico.Gossip.Types.{Entry, NodeState, compact_key}
use pico.Gossip.Floor.{floor, IsParsed}

-- What becomes of a copy's entry: it is the owner's, or the owner has a newer one that the copy has
-- yet to see, or a compaction that the copy has yet to see will discard it.
abbrev pub Fate : NodeState → ℕ → GoString → Entry → Type 0
Fate owner seen k e =
    (lookup k owner.entries ≡ some e)
    ⊎ ((x : Entry) × (lookup k owner.entries ≡ some x) × (seen < x.version))
    ⊎ ((c : Entry) × (lookup compact_key owner.entries ≡ some c)
        × (seen < c.version)
        × (e.version ≤ floor c))

-- The copy `n` has seen all of the owner's entries up to its version.
pub record Consistent (owner n : NodeState) : Type 0 where
  pub distinct : Distinct n.entries
  pub behind : n.version ≤ owner.version
  pub current :
      (k : GoString) (e : Entry)
      → lookup k owner.entries ≡ some e
      → e.version ≤ n.version
      → lookup k n.entries ≡ some e
  pub keyed : (k : GoString) (e : Entry) → lookup k n.entries ≡ some e → e.key ≡ k
  pub positive : (k : GoString) (e : Entry) → lookup k n.entries ≡ some e → 0 < e.version
  pub seen : (k : GoString) (e : Entry) → lookup k n.entries ≡ some e → e.version ≤ n.version
  pub parses : (k : GoString) (e : Entry) → lookup k n.entries ≡ some e → IsParsed e
  pub below : (k : GoString) (e : Entry) → lookup k n.entries ≡ some e → floor e < e.version
  pub above :
      (k j : GoString) (e x : Entry)
      → lookup k n.entries ≡ some e
      → lookup j owner.entries ≡ some x
      → floor e < x.version
  pub fate : (k : GoString) (e : Entry) → lookup k n.entries ≡ some e → Fate owner n.version k e
  pub unique :
      (k j : GoString) (e x : Entry)
      → lookup k n.entries ≡ some e
      → lookup j n.entries ≡ some x
      → e.version ≡ x.version
      → e ≡ x
  pub top :
      (n.version ≡ 0)
      ⊎ ((k : GoString) × (e : Entry) × (lookup k n.entries ≡ some e) × (e.version ≡ n.version))

-- A node's own state: it is a copy of itself.
abbrev pub WellFormed : NodeState → Type 0
WellFormed n = Consistent n n
