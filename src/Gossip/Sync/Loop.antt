-- ===== src/Gossip/Sync/Loop.antt =====
-- A copy takes in a delta that another copy made: the loop of `applyDeltaEntry`.
use Prim.Native.Nat.{max}
use pico.Prelude.{
  ◌≤◌, ◌<◌, ◌≡◌, ◌⊎◌, inl, inr, GoString, lookup, List, [], ◌∷◌, some, arith, leb, Elem, All,
  All-elem, Bool-cases, Option-cases, leb→le,
}
use pico.Gossip.Types.{Time, Entry, NodeState}
use pico.Gossip.Sort.{IsSorted}
use pico.Gossip.Apply.{store, after_store, apply_entries}
use pico.Gossip.Floor.{after_store-ne-none, version-after_store}
use pico.Gossip.Sync.{Consistent}
use pico.Gossip.Sync.Step.{after_store-Consistent}

-- What taking in `es` makes of the copy `c`.
pub record Caught (owner b c n : NodeState) (es : List Entry) : Type 0 where
  pub consistent : Consistent owner n
  pub grown : c.version ≤ n.version
  pub covered : All (λ e. e.version ≤ n.version) es
  pub bounded : n.version ≤ max c.version b.version

-- All that `b` has above the version of `c` is in `es`, or comes after all of `es`.
abbrev pub Covers : NodeState → NodeState → List Entry → Type 0
Covers b c es =
    (k : GoString) (x : Entry)
    → lookup k b.entries ≡ some x
    → c.version < x.version
    → Elem x es ⊎ All (λ y. y.version ≤ x.version) es

module _ (owner b : NodeState) (cb : Consistent owner b) (node_id : GoString) (now : Time) where
  Covers-head :
      (c : NodeState) (e : Entry) (es : List Entry)
      → IsSorted (e ∷ es)
      → Covers b c (e ∷ es)
      → (k : GoString) (x : Entry) → lookup k b.entries ≡ some x
      → c.version < x.version
      → e.version ≤ x.version
  Covers-head c e es sorted covers k x h lt = elim (covers k x h lt) [
    | inl (inl p) ↦ ground arith
    | inl (inr m) ↦ All-elem (λ y. e.version ≤ y.version) es x sorted.0 m
    | inr later ↦ later.0
  ]

  Covers-tail :
      (c c' : NodeState) (e : Entry) (es : List Entry)
      → Covers b c (e ∷ es)
      → e.version ≤ c'.version
      → c.version ≤ c'.version
      → Covers b c' es
  Covers-tail c c' e es covers le grown k x h lt = elim (covers k x h (omega arith)) [
    | inl (inl p) ↦ absurd (ground arith)
    | inl (inr m) ↦ inl m
    | inr later ↦ inr later.1
  ]

  pub apply_entries-Caught :
      (es : List Entry) (c : NodeState)
      → Consistent owner c
      → IsSorted es
      → All (λ e. lookup e.key b.entries ≡ some e) es
      → Covers b c es
      → Caught owner b c (apply_entries node_id now es c).0 es
  unfolding apply_entries
  apply_entries-Caught [] c cc' sorted held covers = record {
    consistent = cc';
    grown = omega arith;
    covered = tt;
    bounded = omega arith;
  }
  apply_entries-Caught (e ∷ es) c cc' sorted held covers =
      elim (Bool-cases (leb e.version c.version)) [
        | inl old ↦
            let le = leb→le e.version c.version old in
            let rest =
              apply_entries-Caught es c cc' sorted.1 held.1
                (Covers-tail c c e es covers le (omega arith)) in
            rw (old, apply_entries)
              (record {
                consistent = rest.consistent;
                grown = rest.grown;
                covered = (omega (arith, rest.grown), rest.covered);
                bounded = rest.bounded;
              })
        | inr new ↦ elim (Option-cases (after_store node_id now (store c e) e)) [
          | inl failed ↦
              absurd
                (after_store-ne-none node_id now (store c e) e (cb.parses e.key e held.0) failed)
          | inr (r, done) ↦
              let newer : c.version < e.version = ground arith in
              let version = version-after_store node_id now (store c e) e done in
              let next =
                after_store-Consistent owner b c e cb cc' held.0 newer
                  (Covers-head c e es sorted covers) node_id now done in
              let rest =
                apply_entries-Caught es r.0 next sorted.1 held.1 (
                  Covers-tail c r.0 e es covers (omega (arith, version))
                    (omega (arith, version))) in
              rw (new, apply_entries, done)
                (record {
                  consistent = rest.consistent;
                  grown = omega (arith, rest.grown, version);
                  covered = (omega (arith, rest.grown, version), rest.covered);
                  bounded = omega (arith, rest.bounded, version, cb.seen e.key e held.0);
                })
        ]
      ]
