-- ===== src/Gossip/Sync/Exchange.antt =====
-- The delta of one copy, taken in by another: `deltaEntry` on one side, `applyDeltaEntry` on the
-- other, with what is lost when a packet is full.
use pico.Prelude.{
  ℕ, ◌≤◌, ◌<◌, ◌≡◌, ◌⊎◌, subst, sym, inl, inr, GoString, lookup, values, Elem-values, values-Elem,
  List, [], ◌∷◌, ◌++◌, some, arith, Elem, Elem-front, All, All-elem, All-of_Elem,
}
use pico.Gossip.Types.{Time, Entry, NodeState}
use pico.Gossip.Sort.{
  IsSorted, sort_by_version-IsSorted, Elem-sort_by_version, sort_by_version-Elem,
}
use pico.Gossip.Delta.{newer, delta_entry}
use pico.Gossip.Apply.{apply_entries}
use pico.Gossip.Sync.{Consistent}
use pico.Gossip.Sync.Loop.{Caught, apply_entries-Caught}

Elem-newer : (v : ℕ) (es : List Entry) (e : Entry) → Elem e es → v < e.version → Elem e (newer v es)
unfolding newer
Elem-newer v [] e m lt = absurd m
Elem-newer v (x ∷ es) e (inl p) lt = ground arith
Elem-newer v (x ∷ es) e (inr m) lt = ground (arith, Elem-newer v es e m)

newer-Elem : (v : ℕ) (es : List Entry) (e : Entry) → Elem e (newer v es) → Elem e es
unfolding newer
newer-Elem v [] e m = absurd m
newer-Elem v (x ∷ es) e m = ground (arith, λ (h : Elem e (newer v es)). newer-Elem v es e h)

-- An element of a sorted list stands in the front part or after it.
Elem-cases :
    (e : Entry) (xs ys : List Entry)
    → IsSorted (xs ++ ys)
    → Elem e (xs ++ ys)
    → Elem e xs ⊎ All (λ y. y.version ≤ e.version) xs
Elem-cases e [] ys sorted m = inr tt
Elem-cases e (x ∷ xs) ys sorted (inl p) = inl (inl p)
Elem-cases e (x ∷ xs) ys sorted (inr m) = elim (Elem-cases e xs ys sorted.1 m) [
  | inl here ↦ inl (inr here)
  | inr later ↦ inr (All-elem (λ y. x.version ≤ y.version) (xs ++ ys) e sorted.0 m, later)
]

IsSorted-prefix : (xs ys : List Entry) → IsSorted (xs ++ ys) → IsSorted xs
IsSorted-prefix [] ys s = tt
IsSorted-prefix (x ∷ xs) ys s = (
  All-of_Elem (λ y. x.version ≤ y.version) xs
      (λ a m. All-elem (λ y. x.version ≤ y.version) (xs ++ ys) a s.0 (Elem-front a xs ys m)),
  IsSorted-prefix xs ys s.1,
)

module _ (owner b c : NodeState) (cb : Consistent owner b) (cc' : Consistent owner c)
    (node_id : GoString) (now : Time) (from_version : ℕ) (asked : from_version ≤ c.version)
    (sent unsent : List Entry) (split : sent ++ unsent ≡ (delta_entry b from_version).entries) where
  sorted : IsSorted (sent ++ unsent)
  unfolding delta_entry
  sorted = rw split (sort_by_version-IsSorted _)

  held : (e : Entry) → Elem e (sent ++ unsent) → lookup e.key b.entries ≡ some e
  unfolding delta_entry
  held e m =
      let all =
        newer-Elem from_version (values b.entries) e
          (sort_by_version-Elem e _ (subst (λ es. Elem e es) split m)) in
      let (k, found) = values-Elem e b.entries cb.distinct all in
      subst (λ j. lookup j b.entries ≡ some e) (sym (cb.keyed k e found)) found

  pub asked_for :
      (k : GoString) (x : Entry)
      → lookup k b.entries ≡ some x
      → c.version < x.version
      → Elem x (sent ++ unsent)
  unfolding delta_entry
  asked_for k x found lt = rw split (
      Elem-sort_by_version x _ (
        Elem-newer from_version (values b.entries) x (Elem-values k x b.entries found)
          (omega arith)))

  -- Let `b` and `c` be copies of one owner's state. Any front part of the delta of `b`, asked for
  -- at a version that `c` has, leaves `c` a copy, its version no lower than before and than those
  -- of the part, and no higher than the higher of the two.
  pub exchange-Caught : Caught owner b c (apply_entries node_id now sent c).0 sent
  exchange-Caught =
      apply_entries-Caught owner b cb node_id now sent c cc' (IsSorted-prefix sent unsent sorted)
        (All-of_Elem (λ e. lookup e.key b.entries ≡ some e) sent
          (λ e m. held e (Elem-front e sent unsent m)))
        (λ k x found lt. Elem-cases x sent unsent sorted (asked_for k x found lt))
