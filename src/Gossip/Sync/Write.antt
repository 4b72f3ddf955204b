-- ===== src/Gossip/Sync/Write.antt =====
-- The owner writes an entry with its next version.
use pico.Prelude.{
  suc, ◌≤◌, ◌<◌, ◌≡◌, ◌≢◌, ◌⊎◌, refl, sym, inl, inr, GoString, lookup, insert, some, arith, str_dec,
  lookup-insert, insert-Distinct,
}
use pico.Gossip.Types.{Entry, NodeState, compact_key}
use pico.Gossip.Floor.{floor, IsParsed}
use pico.Gossip.Sync.{Consistent, WellFormed, Fate}

pub floor_plain : (e : Entry) → e.key ≢ compact_key → floor e ≡ 0
unfolding floor
floor_plain e ne = ground (arith, ne)

module _ (o o' : NodeState) (e : Entry) (well : WellFormed o) (plain : e.key ≢ compact_key)
    (entries' : o'.entries ≡ insert e.key e o.entries) (version' : o'.version ≡ e.version)
    (next : e.version ≡ suc o.version) where
  written :
      (k : GoString) (x : Entry)
      → lookup k o'.entries ≡ some x
      → ((k ≡ e.key) × (x ≡ e)) ⊎ ((k ≢ e.key) × (lookup k o.entries ≡ some x))
  written k x h = ground (arith, lookup-insert e.key k e o.entries, entries')

  at_key : lookup e.key o'.entries ≡ some e
  at_key = ground (arith, lookup-insert e.key e.key e o.entries, entries')

  kept :
      (k : GoString) (x : Entry)
      → k ≢ e.key
      → lookup k o.entries ≡ some x
      → lookup k o'.entries ≡ some x
  kept k x ne h = ground (arith, lookup-insert e.key k e o.entries, entries')

  module _ (n : NodeState) (cn : Consistent o n) where
    Fate-after : (k : GoString) (x : Entry) → lookup k n.entries ≡ some x → Fate o' n.version k x
    Fate-after k x h = elim (str_dec k e.key) [
      | yes p ↦ inr (inl (e, rw p at_key, omega (arith, cn.behind)))
      | no ne ↦ elim (cn.fate k x h) [
        | inl same ↦ inl (kept k x ne same)
        | inr (inl (y, at, lt)) ↦ inr (inl (y, kept k y ne at, lt))
        | inr (inr (c, at, lt, le)) ↦
            inr (inr (c, kept compact_key c (λ p. plain (sym p)) at, lt, le))
      ]
    ]

    -- A copy of the state is a copy of the new state.
    pub write-Consistent : Consistent o' n
    write-Consistent = record {
      distinct = cn.distinct;
      behind = omega (arith, cn.behind);
      current = λ k x h le. ground (arith, written k x h, cn.behind, cn.current k x);
      keyed = cn.keyed;
      positive = cn.positive;
      seen = cn.seen;
      parses = cn.parses;
      below = cn.below;
      above = λ k j x y h g.
          ground
            (arith, written j y g, cn.above k j x y h, cn.below k x h, cn.seen k x h, cn.behind);
      fate = Fate-after;
      unique = cn.unique;
      top = cn.top;
    }

  written_all {κ} :
      (P : GoString → Entry → Type κ)
      → P e.key e
      → ((k : GoString) (x : Entry) → lookup k o.entries ≡ some x → P k x)
      → (k : GoString) (x : Entry) → lookup k o'.entries ≡ some x
      → P k x
  written_all P pe po k x h = elim (written k x h) [
    | inl (p, q) ↦ rw (p, q) pe
    | inr (ne, old) ↦ po k x old
  ]

  -- The state stays well formed.
  pub write-WellFormed : WellFormed o'
  write-WellFormed = record {
    distinct = rw entries' (insert-Distinct e.key e o.entries well.distinct);
    behind = omega arith;
    current = λ k x h le. h;
    keyed = written_all (λ k x. x.key ≡ k) refl well.keyed;
    positive = written_all (λ k x. 0 < x.version) (omega arith) well.positive;
    seen =
        written_all (λ k x. x.version ≤ o'.version) (omega arith)
          (λ k x h. omega (arith, well.seen k x h));
    parses = written_all (λ k x. IsParsed x) (λ i p. absurd (plain p)) well.parses;
    below =
        written_all (λ k x. floor x < x.version) (omega (arith, floor_plain e plain)) well.below;
    above = λ k j x y h g. ground (
      arith,
      written k x h,
      written j y g,
      floor_plain e plain,
      well.above k j x y,
      well.below k x,
      well.seen k x,
      well.positive j y,
    );
    fate = λ k x h. inl h;
    unique = λ k j x y h g v.
        ground
          (arith, written k x h, written j y g, well.unique k j x y, well.seen k x, well.seen j y);
    top = inr (e.key, e, at_key, sym version');
  }
