-- ===== src/Gossip/Floor.antt =====
-- The version up to which an entry makes a node discard, and what storing such an entry leaves.
use pico.Prelude.{
  ℕ, ◌<◌, ◌≡◌, ◌≢◌, GoString, Distinct, lookup, values, true, List, Option, some, none, ite,
  str_dec, arith, if◌then◌else◌,
}
use pico.Strconv.{parse_uint}
use pico.Gossip.Types.{Time, Entry, NodeState, Effect, left_key, compact_key}
use pico.Gossip.Apply.{after_store}
use pico.Gossip.Discard.{
  IsKeyed, metadata-discard_upto, discard_upto-Distinct, lookup-discard_upto_kept,
  lookup_of_discard_upto_kept,
}

abbrev pub parsed : Option ℕ → ℕ
parsed none = 0
parsed (some n) = n

-- The compaction version of a compaction entry; of any other entry 0.
unfoldable pub floor : Entry → ℕ
floor e = if e.internal then ite (str_dec e.key compact_key) (parsed (parse_uint e.value)) 0 else 0

-- A compaction entry holds a version.
abbrev pub IsParsed : Entry → Type 0
IsParsed e = e.internal ≡ true → e.key ≡ compact_key → parse_uint e.value ≢ none

pub left_key-ne-compact_key : left_key ≢ compact_key
left_key-ne-compact_key p = cc

module _ (node_id : GoString) (now : Time) (n : NodeState) (e : Entry) where
  pub after_store-ne-none : IsParsed e → after_store node_id now n e ≢ none
  unfolding after_store
  after_store-ne-none h = ground (arith, h)

  module _ {r : NodeState × List Effect} (h : after_store node_id now n e ≡ some r) where
    pub version-after_store : r.0.version ≡ n.version
    unfolding after_store floor
    version-after_store =
        ground (arith, metadata-discard_upto node_id (floor e) (values n.entries) n)

    pub id-after_store : r.0.id ≡ n.id
    unfolding after_store floor
    id-after_store = ground (arith, metadata-discard_upto node_id (floor e) (values n.entries) n)

    pub after_store-Distinct : Distinct n.entries → Distinct r.0.entries
    unfolding after_store floor
    after_store-Distinct d =
        ground (arith, discard_upto-Distinct node_id (floor e) (values n.entries) n d)

    -- Storing keeps what lies above the floor.
    pub lookup-after_store :
        (j : GoString) (x : Entry)
        → IsKeyed n
        → Distinct n.entries
        → lookup j n.entries ≡ some x
        → floor e < x.version
        → lookup j r.0.entries ≡ some x
    unfolding after_store floor
    lookup-after_store j x keyed d found above =
        ground (arith, lookup-discard_upto_kept node_id (floor e) n j x keyed d found above)

    -- What storing leaves was there, above the floor.
    pub lookup_of_after_store :
        (j : GoString) (x : Entry)
        → IsKeyed n
        → ((k : GoString) (y : Entry) → lookup k n.entries ≡ some y → 0 < y.version)
        → lookup j r.0.entries ≡ some x
        → (lookup j n.entries ≡ some x) × (floor e < x.version)
    unfolding after_store floor
    lookup_of_after_store j x keyed pos found = ground (
      arith,
      pos j x,
      left_key-ne-compact_key,
      lookup_of_discard_upto_kept node_id (floor e) n j x keyed,
    )
