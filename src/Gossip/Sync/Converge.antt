-- ===== src/Gossip/Sync/Converge.antt =====
-- pkg/gossip/state.go: a whole delta from deltaEntry, taken in by applyDeltaEntry.
use Prim.Native.Nat.{max}
use mathlib.Core.List.{append-nil}
use pico.Prelude.{
  ℕ, ◌≤◌, ◌≡◌, ◌∙◌, sym, subst, inl, inr, GoString, lookup, [], some, arith, Elem, All-elem,
  Option-cases, dec_lt,
}
use pico.Gossip.Types.{Time, Entry, NodeState}
use pico.Gossip.Delta.{delta_entry}
use pico.Gossip.Apply.{apply_entries}
use pico.Gossip.Sync.{Consistent, WellFormed}
use pico.Gossip.Sync.Loop.{Caught}
use pico.Gossip.Sync.Exchange.{exchange-Caught, asked_for}

module _ (owner b c : NodeState) (cb : Consistent owner b) (cc' : Consistent owner c)
    (node_id : GoString) (now : Time) (from_version : ℕ) (asked : from_version ≤ c.version) where
  caught :
      Caught owner b c
        (apply_entries node_id now (delta_entry b from_version).entries c).0
        (delta_entry b from_version).entries
  caught = exchange-Caught owner b c cb cc' node_id now from_version asked _ [] (append-nil _)

  covered :
      (k : GoString) (x : Entry)
      → lookup k b.entries ≡ some x
      → x.version ≤ (apply_entries node_id now (delta_entry b from_version).entries c).0.version
  covered k x found = elim (dec_lt c.version x.version) [
    | no p ↦ omega (arith, caught.grown)
    | yes newer ↦
        All-elem
          (λ e.
            e.version
            ≤ (apply_entries node_id now (delta_entry b from_version).entries c).0.version)
          (delta_entry b from_version).entries x caught.covered
          (subst (λ es. Elem x es) (append-nil (delta_entry b from_version).entries)
            (asked_for owner b c cb cc' node_id now from_version asked
              (delta_entry b from_version).entries [] (append-nil _) k x found newer))
  ]

  -- Let `b` and `c` be copies of one owner's state. A whole delta of `b`, asked for at a version
  -- that `c` has, leaves `c` a copy and gives it the higher of the two versions.
  pub exchange-version :
      Consistent owner (apply_entries node_id now (delta_entry b from_version).entries c).0
      × ((apply_entries node_id now (delta_entry b from_version).entries c).0.version
          ≡ max c.version b.version)
  exchange-version = (
    caught.consistent,
    elim cb.top [
      | inl none_yet ↦ omega (arith, caught.grown, caught.bounded)
      | inr (k, e, found, last) ↦ omega (arith, caught.grown, caught.bounded, covered k e found)
    ],
  )

-- A copy of a well-formed state that has its version gives the same entry at every key.
pub Consistent-exact :
    (owner n : NodeState)
    → WellFormed owner
    → Consistent owner n
    → n.version ≡ owner.version
    → (k : GoString) → lookup k n.entries ≡ lookup k owner.entries
Consistent-exact owner n well cn level k = elim (Option-cases (lookup k owner.entries)) [
  | inr (e, found) ↦ cn.current k e found (ground (arith, well.seen k e found)) ∙ sym found
  | inl missing ↦ elim (Option-cases (lookup k n.entries)) [
    | inl absent ↦ absent ∙ sym missing
    | inr (x, held) ↦ elim (cn.fate k x held) [
      | inl same ↦ cc
      | inr (inl (y, at, lt)) ↦ absurd (omega (arith, well.seen k y at))
      | inr (inr (y, at, lt, le)) ↦ absurd (omega (arith, well.seen _ y at))
    ]
  ]
]
