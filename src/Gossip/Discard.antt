-- ===== src/Gossip/Discard.antt =====
-- pkg/gossip/state.go: what the compaction loop of applyDeltaEntry leaves of a node's entries.
use pico.Prelude.{
  Option, Option-cases, subst, leb, dec_le, if◌then◌else◌, ℕ, ◌≤◌, ◌<◌, ◌≡◌, ◌∙◌, refl, inl, inr,
  GoString, Distinct, lookup, delete, values, lookup-delete, delete-Distinct, Elem-values,
  values-Elem, List, [], ◌∷◌, some, none, arith, Elem,
}
use pico.Gossip.Types.{Entry, NodeState}
use pico.Gossip.Apply.{discard_upto}

-- Every entry stands under its own key.
abbrev pub IsKeyed : NodeState → Type 0
IsKeyed n = (k : GoString) (e : Entry) → lookup k n.entries ≡ some e → e.key ≡ k

abbrev pub kept_above : ℕ → Option Entry → Option Entry
kept_above cv none = none
kept_above cv (some x) = if leb x.version cv then none else some x

module _ (node_id : GoString) (cv : ℕ) where
  pub metadata-discard_upto :
      (es : List Entry) (n : NodeState) → (discard_upto node_id cv es n).0.metadata ≡ n.metadata
  unfolding discard_upto
  metadata-discard_upto [] n = refl
  metadata-discard_upto (e ∷ es) n = ground (
    arith,
    metadata-discard_upto es n,
    metadata-discard_upto es (record n { entries = delete e.key n.entries }),
  )

  pub discard_upto-Distinct :
      (es : List Entry) (n : NodeState)
      → Distinct n.entries
      → Distinct (discard_upto node_id cv es n).0.entries
  unfolding discard_upto
  discard_upto-Distinct [] n d = d
  discard_upto-Distinct (e ∷ es) n d = ground (
    arith,
    discard_upto-Distinct es n d,
    discard_upto-Distinct es (record n { entries = delete e.key n.entries })
        (delete-Distinct e.key n.entries d),
  )

  -- What is not discarded was there before.
  lookup_of_discard_upto :
      (es : List Entry) (n : NodeState) (j : GoString) (x : Entry)
      → lookup j (discard_upto node_id cv es n).0.entries ≡ some x
      → lookup j n.entries ≡ some x
  unfolding discard_upto
  lookup_of_discard_upto [] n j x h = h
  lookup_of_discard_upto (e ∷ es) n j x h = ground (
    arith,
    lookup_of_discard_upto es n j x,
    lookup_of_discard_upto es (record n { entries = delete e.key n.entries }) j x,
    lookup-delete e.key j n.entries,
  )

  lookup-discard_upto-none :
      (es : List Entry) (n : NodeState) (j : GoString)
      → lookup j n.entries ≡ none
      → lookup j (discard_upto node_id cv es n).0.entries ≡ none
  unfolding discard_upto
  lookup-discard_upto-none [] n j h = h
  lookup-discard_upto-none (e ∷ es) n j h = ground (
    arith,
    lookup-discard_upto-none es n j,
    lookup-discard_upto-none es (record n { entries = delete e.key n.entries }) j,
    lookup-delete e.key j n.entries,
  )

  -- An old entry's key is gone.
  lookup-discard_upto_old :
      (es : List Entry) (n : NodeState) (e : Entry)
      → Elem e es
      → e.version ≤ cv
      → lookup e.key (discard_upto node_id cv es n).0.entries ≡ none
  unfolding discard_upto
  lookup-discard_upto_old [] n e m h = absurd m
  lookup-discard_upto_old (x ∷ es) n e (inl p) h = ground (
    arith,
    lookup-discard_upto-none es (record n { entries = delete x.key n.entries }) x.key,
    lookup-delete x.key x.key n.entries,
  )
  lookup-discard_upto_old (x ∷ es) n e (inr m) h = ground (
    arith,
    lookup-discard_upto_old es n e m h,
    lookup-discard_upto_old es (record n { entries = delete x.key n.entries }) e m h,
  )

  -- A key under which only newer entries stand is kept.
  lookup-discard_upto_new :
      (es : List Entry) (n : NodeState) (j : GoString)
      → ((e : Entry) → Elem e es → e.key ≡ j → cv < e.version)
      → lookup j (discard_upto node_id cv es n).0.entries ≡ lookup j n.entries
  unfolding discard_upto
  lookup-discard_upto_new [] n j h = refl
  lookup-discard_upto_new (e ∷ es) n j h = ground (
    arith,
    h e (inl refl),
    lookup-discard_upto_new es n j (λ e' m. h e' (inr m)),
    lookup-discard_upto_new es (record n { entries = delete e.key n.entries }) j
        (λ e' m. h e' (inr m)),
    lookup-delete e.key j n.entries,
  )

  -- Over the map's own entries, exactly those above the version stay.
  pub lookup-discard_upto_kept :
      (n : NodeState) (j : GoString) (x : Entry)
      → IsKeyed n
      → Distinct n.entries
      → lookup j n.entries ≡ some x
      → cv < x.version
      → lookup j (discard_upto node_id cv (values n.entries) n).0.entries ≡ some x
  lookup-discard_upto_kept n j x keyed d found above =
      lookup-discard_upto_new (values n.entries) n j above_of_key ∙ found
    where
      above_of_key : (e : Entry) → Elem e (values n.entries) → e.key ≡ j → cv < e.version
      above_of_key e m p =
          let (k, at_k) = values-Elem e n.entries d m in ground (arith, keyed k e at_k)

  pub lookup_of_discard_upto_kept :
      (n : NodeState) (j : GoString) (x : Entry)
      → IsKeyed n
      → lookup j (discard_upto node_id cv (values n.entries) n).0.entries ≡ some x
      → (lookup j n.entries ≡ some x) × (cv < x.version)
  lookup_of_discard_upto_kept n j x keyed h =
      let before = lookup_of_discard_upto (values n.entries) n j x h in
      let old = lookup-discard_upto_old (values n.entries) n x (Elem-values j x n.entries before) in
      (before, ground (arith, old, keyed j x before))

  -- Over a map's own entries, each under its own key and once, a compaction removes exactly the
  -- entries up to its version and leaves the others as they are.
  pub lookup-discard_upto :
      (n : NodeState) (j : GoString)
      → IsKeyed n
      → Distinct n.entries
      → lookup j (discard_upto node_id cv (values n.entries) n).0.entries
        ≡ kept_above cv (lookup j n.entries)
  lookup-discard_upto n j keyed d = elim (Option-cases (lookup j n.entries)) [
    | inl missing ↦
        lookup-discard_upto-none (values n.entries) n j missing ∙ ground (arith, missing)
    | inr (x, found) ↦ elim (dec_le x.version cv) [
      | yes old ↦
          subst (λ k. lookup k (discard_upto node_id cv (values n.entries) n).0.entries ≡ none)
            (keyed j x found)
            (lookup-discard_upto_old (values n.entries) n x (Elem-values j x n.entries found) old)
          ∙ ground (arith, found, old)
      | no above ↦
          lookup-discard_upto_kept n j x keyed d found (omega arith) ∙ ground (arith, found, above)
    ]
  ]
