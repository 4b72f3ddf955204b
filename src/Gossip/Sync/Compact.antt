-- ===== src/Gossip/Sync/Compact.antt =====
-- The owner compacts its entries.
use pico.Prelude.{
  ℕ, suc, ◌+◌, ◌^◌, ◌≤◌, ◌<◌, ◌≡◌, ◌⊎◌, refl, sym, inl, inr, GoString, Distinct, lookup, values,
  Elem-values, values-Elem, List, [], ◌∷◌, some, arith, length, lookup-insert, insert-Distinct,
  Elem,
}
use pico.Strconv.RoundTrip.{parse_uint-format_uint}
use pico.Gossip.Types.{Entry, NodeState, compact_key, next_version}
use pico.Gossip.Sort.{
  IsSorted, sort_by_version, sort_by_version-IsSorted, Elem-sort_by_version, sort_by_version-Elem,
}
use pico.Gossip.Local.{last_entry, reversion_all, compact_entry, compact_write}
use pico.Gossip.Floor.{floor, IsParsed}
use pico.Gossip.Sync.{Consistent, WellFormed}
use pico.Gossip.Sync.Reversion.{Reversioned, reversion_all-Reversioned, next_version_lem}

last_entry-max :
    (es : List Entry) (l e : Entry)
    → IsSorted es
    → last_entry es ≡ some l
    → Elem e es
    → e.version ≤ l.version
unfolding last_entry
last_entry-max [] l e s h m = absurd m
last_entry-max (x ∷ []) l e s h m = ground arith
last_entry-max (x ∷ y ∷ es) l e s h (inl p) =
    let le = last_entry-max (y ∷ es) l y s.1 h (inl refl) in ground arith
last_entry-max (x ∷ y ∷ es) l e s h (inr m) = last_entry-max (y ∷ es) l e s.1 h m

last_entry-Elem : (es : List Entry) (l : Entry) → last_entry es ≡ some l → Elem l es
unfolding last_entry
last_entry-Elem [] l h = cc
last_entry-Elem (x ∷ []) l h = ground arith
last_entry-Elem (x ∷ y ∷ es) l h = inr (last_entry-Elem (y ∷ es) l h)

-- The last version that a compaction discards is the node's version.
pub version-last_entry :
    (o : NodeState) (l : Entry)
    → WellFormed o
    → last_entry (sort_by_version (values o.entries)) ≡ some l
    → l.version ≡ o.version
version-last_entry o l well h =
    let (k, found) =
      values-Elem l o.entries well.distinct (sort_by_version-Elem l _ (last_entry-Elem _ l h)) in
    elim well.top [
      | inl zero_version ↦ omega (arith, well.seen k l found, well.positive k l found)
      | inr (j, e, at, level) ↦ omega (
        arith,
        well.seen k l found,
        last_entry-max _ l e (sort_by_version-IsSorted (values o.entries)) h
            (Elem-sort_by_version e _ (Elem-values j e o.entries at)),
      )
    ]

floor-compact_entry : (cv v : ℕ) → cv < 2 ^ 64 → floor (compact_entry cv v) ≡ cv
unfolding floor
floor-compact_entry cv v h = ground (arith, parse_uint-format_uint cv)

compact_entry-IsParsed : (cv v : ℕ) → cv < 2 ^ 64 → IsParsed (compact_entry cv v)
compact_entry-IsParsed cv v h i p = ground (arith, parse_uint-format_uint cv)

module _ (o : NodeState) (es : List Entry) (well : WellFormed o)
    (fits : o.version + length es + 1 < 2 ^ 64) where
  kept : NodeState
  kept = reversion_all (record o { entries = [] }) es

  kept-Reversioned : Reversioned o.version kept × (kept.version ≤ o.version + length es)
  unfolding kept lookup
  kept-Reversioned =
      reversion_all-Reversioned o.version es (record o { entries = [] }) (omega arith)
        (record {
          distinct = tt;
          from = omega arith;
          keyed = λ k e h. cc;
          later = λ k e h. cc;
          seen = λ k e h. cc;
          parses = λ k e h. cc;
          ground_level = λ k e h. cc;
          unique = λ k j e x h g p. cc;
        })

  mark : Entry
  unfolding kept
  mark = compact_entry o.version (next_version kept.version)

  compacted : NodeState
  unfolding compact_write kept
  compacted = (compact_write o es o.version).0

  facts : (o.version ≤ kept.version) × (mark.version ≡ suc kept.version)
  unfolding mark
  facts = let (r, bound) = kept-Reversioned in (r.from, next_version_lem kept.version (omega arith))

  mark-floor : floor mark ≡ o.version
  unfolding mark
  mark-floor = floor-compact_entry o.version (next_version kept.version) (omega arith)

  mark-key : mark.key ≡ compact_key
  unfolding mark
  mark-key = refl

  mark-IsParsed : IsParsed mark
  unfolding mark
  mark-IsParsed = compact_entry-IsParsed o.version (next_version kept.version) (omega arith)

  compacted-Distinct : Distinct compacted.entries
  unfolding compacted mark
  compacted-Distinct = insert-Distinct compact_key mark kept.entries kept-Reversioned.0.distinct

  cases :
      (k : GoString) (x : Entry)
      → lookup k compacted.entries ≡ some x
      → ((k ≡ compact_key) × (x ≡ mark)) ⊎ (lookup k kept.entries ≡ some x)
  unfolding compacted mark
  cases k x h = ground (arith, lookup-insert compact_key k mark kept.entries)

  at_mark : lookup compact_key compacted.entries ≡ some mark
  unfolding compacted mark
  at_mark = ground (arith, lookup-insert compact_key compact_key mark kept.entries)

  version-compacted : compacted.version ≡ mark.version
  unfolding compacted mark
  version-compacted = refl

  later : (k : GoString) (x : Entry) → lookup k compacted.entries ≡ some x → o.version < x.version
  later k x h = ground (arith, cases k x h, kept-Reversioned.0.later k x, facts)

  -- A copy of the state is a copy of the compacted state.
  pub compact-Consistent :
      (n : NodeState) → Consistent o n → Consistent (compact_write o es o.version).0 n
  unfolding compacted
  compact-Consistent n cn = record {
    distinct = cn.distinct;
    behind = omega (arith, cn.behind, version-compacted, facts.0, facts.1);
    current = λ k x h le. absurd (omega (arith, later k x h, cn.behind));
    keyed = cn.keyed;
    positive = cn.positive;
    seen = cn.seen;
    parses = cn.parses;
    below = cn.below;
    above = λ k j x y h g. omega (arith, later j y g, cn.below k x h, cn.seen k x h, cn.behind);
    fate = λ k x h. inr (
        inr (
          mark,
          at_mark,
          omega (arith, cn.behind, facts.0, facts.1),
          omega (arith, cn.behind, cn.seen k x h, mark-floor),
        ));
    unique = cn.unique;
    top = cn.top;
  }

  compacted_all {κ} :
      (P : GoString → Entry → Type κ)
      → P compact_key mark
      → ((k : GoString) (x : Entry) → lookup k kept.entries ≡ some x → P k x)
      → (k : GoString) (x : Entry) → lookup k compacted.entries ≡ some x
      → P k x
  compacted_all P pm pk k x h = elim (cases k x h) [
    | inl (p, q) ↦ rw (p, q) pm
    | inr old ↦ pk k x old
  ]

  -- The compacted state is well formed.
  pub compact-WellFormed : WellFormed (compact_write o es o.version).0
  unfolding compacted
  compact-WellFormed =
      let r = kept-Reversioned.0 in
      record {
        distinct = compacted-Distinct;
        behind = omega arith;
        current = λ k x h le. h;
        keyed = compacted_all (λ k x. x.key ≡ k) mark-key r.keyed;
        positive = λ k x h. omega (arith, later k x h);
        seen =
            compacted_all (λ k x. x.version ≤ compacted.version) (omega (arith, version-compacted))
              (λ k x h. omega (arith, r.seen k x h, version-compacted, facts.1));
        parses = compacted_all (λ k x. IsParsed x) mark-IsParsed r.parses;
        below =
            compacted_all (λ k x. floor x < x.version) (omega (arith, mark-floor, facts.0, facts.1))
              (λ k x h. omega (arith, r.ground_level k x h, r.later k x h));
        above = λ k j x y h g.
            compacted_all (λ k' x'. floor x' < y.version) (omega (arith, mark-floor, later j y g))
              (λ k' x' h'. omega (arith, r.ground_level k' x' h', later j y g)) k x h;
        fate = λ k x h. inl h;
        unique = λ k j x y h g p.
            ground
              (arith, cases k x h, cases j y g, facts, r.seen k x, r.seen j y, r.unique k j x y);
        top = inr (compact_key, mark, at_mark, sym version-compacted);
      }
