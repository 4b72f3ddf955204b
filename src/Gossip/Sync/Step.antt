-- ===== src/Gossip/Sync/Step.antt =====
-- A copy stores the next entry that another copy holds.
use pico.Prelude.{
  ◌≤◌, ◌<◌, ◌≡◌, ◌≢◌, ◌⊎◌, ◌∙◌, refl, sym, inl, inr, GoString, lookup, List, some, arith, str_dec,
  if_pos, dec_lt, lookup-insert, insert-Distinct,
}
use pico.Gossip.Types.{Time, Entry, NodeState, Effect, compact_key}
use pico.Gossip.Apply.{store, after_store}
use pico.Gossip.Floor.{
  floor, IsParsed, version-after_store, after_store-Distinct, lookup-after_store,
  lookup_of_after_store,
}
use pico.Gossip.Sync.{Consistent, Fate}

-- `b` holds `e`, which is newer than all that `c` has seen, and no entry of `b` lies between.
module _ (owner b c : NodeState) (e : Entry) (cb : Consistent owner b) (cc' : Consistent owner c)
    (at_b : lookup e.key b.entries ≡ some e) (newer : c.version < e.version)
    (next : (k : GoString) (x : Entry)
      → lookup k b.entries ≡ some x
      → c.version < x.version
      → e.version ≤ x.version) where
  le-b : e.version ≤ b.version
  le-b = cb.seen e.key e at_b

  stored_cases :
      (k : GoString) (x : Entry)
      → lookup k (store c e).entries ≡ some x
      → ((k ≡ e.key) × (x ≡ e)) ⊎ ((k ≢ e.key) × (lookup k c.entries ≡ some x))
  stored_cases k x h = ground (arith, lookup-insert e.key k e c.entries)

  pub store-IsKeyed : (k : GoString) (x : Entry) → lookup k (store c e).entries ≡ some x → x.key ≡ k
  store-IsKeyed k x h = ground (arith, stored_cases k x h, cc'.keyed k x)

  store-positive :
      (k : GoString) (x : Entry) → lookup k (store c e).entries ≡ some x → 0 < x.version
  store-positive k x h = ground (arith, stored_cases k x h, cc'.positive k x)

  -- An owner's entry that `c` has seen with `e` is `e` itself or was seen before.
  owner_cases :
      (k : GoString) (x : Entry)
      → lookup k owner.entries ≡ some x
      → x.version ≤ e.version
      → ((k ≡ e.key) × (x ≡ e)) ⊎ (x.version ≤ c.version)
  owner_cases k x h le =
      ground (arith, le-b, cb.current k x h, next k x, cb.unique k e.key x e, cb.keyed k x)

  -- After the store, what the owner has up to `e` is there.
  store-current :
      (k : GoString) (x : Entry)
      → lookup k owner.entries ≡ some x
      → x.version ≤ e.version
      → lookup k (store c e).entries ≡ some x
  store-current k x h le = ground (
    arith,
    le-b,
    owner_cases k x h le,
    cc'.current k x h,
    cb.current k x h,
    lookup-insert e.key k e c.entries,
  )

  module _ (node_id : GoString) (now : Time) {r : NodeState × List Effect}
      (done : after_store node_id now (store c e) e ≡ some r) where
    result_cases :
        (k : GoString) (x : Entry)
        → lookup k r.0.entries ≡ some x
        → (((k ≡ e.key) × (x ≡ e)) ⊎ ((k ≢ e.key) × (lookup k c.entries ≡ some x)))
          × (floor e < x.version)
    result_cases k x h =
        let (found, above) =
          lookup_of_after_store node_id now (store c e) e done k x store-IsKeyed store-positive h in
        (stored_cases k x found, above)

    version_lem : r.0.version ≡ e.version
    version_lem = version-after_store node_id now (store c e) e done

    Fate-e : Fate owner e.version e.key e
    Fate-e = ground (arith, le-b, cb.fate e.key e at_b)

    Fate-old :
        (k : GoString) (x : Entry)
        → k ≢ e.key
        → lookup k c.entries ≡ some x
        → floor e < x.version
        → Fate owner e.version k x
    Fate-old k x ne h above = elim (cc'.fate k x h) [
      | inl same ↦ inl same
      | inr (inl (y, at, lt)) ↦ elim (dec_lt e.version y.version) [
        | yes later ↦ inr (inl (y, at, later))
        | no p ↦ absurd (ground (arith, owner_cases k y at))
      ]
      | inr (inr (y, at, lt, le)) ↦ elim (dec_lt e.version y.version) [
        | yes later ↦ inr (inr (y, at, later, le))
        | no p ↦ absurd (ground (arith, owner_cases compact_key y at))
      ]
    ]

    result-Fate :
        (k : GoString) (x : Entry) → lookup k r.0.entries ≡ some x → Fate owner r.0.version k x
    result-Fate k x h = rw version_lem (elim (result_cases k x h).0 [
      | inl (p, q) ↦ rw (p, q) Fate-e
      | inr (ne, old) ↦ Fate-old k x ne old (result_cases k x h).1
    ])

    -- Every entry of the result is `e` or an entry of `c`: what both satisfy, it satisfies.
    result_all {κ} :
        (P : GoString → Entry → Type κ)
        → P e.key e
        → ((k : GoString) (x : Entry) → lookup k c.entries ≡ some x → P k x)
        → (k : GoString) (x : Entry) → lookup k r.0.entries ≡ some x
        → P k x
    result_all P pe pc k x h = elim (result_cases k x h).0 [
      | inl (p, q) ↦ rw (p, q) pe
      | inr (ne, old) ↦ pc k x old
    ]

    result_unique :
        (k j : GoString) (x y : Entry)
        → lookup k r.0.entries ≡ some x
        → lookup j r.0.entries ≡ some y
        → x.version ≡ y.version
        → x ≡ y
    result_unique k j x y h g v = ground (
      arith,
      (result_cases k x h).0,
      (result_cases j y g).0,
      cc'.seen k x,
      cc'.seen j y,
      cc'.unique k j x y,
    )

    e_kept : lookup e.key r.0.entries ≡ some e
    e_kept =
        lookup-after_store node_id now (store c e) e done e.key e store-IsKeyed
          (insert-Distinct e.key e c.entries cc'.distinct)
          (lookup-insert e.key e.key e c.entries ∙ if_pos (str_dec e.key e.key) refl _ _)
          (cb.below e.key e at_b)

    -- The step keeps the relation to the owner.
    pub after_store-Consistent : Consistent owner r.0
    after_store-Consistent = record {
      distinct =
          after_store-Distinct node_id now (store c e) e done
            (insert-Distinct e.key e c.entries cc'.distinct);
      behind = ground (arith, version_lem, le-b, cb.behind);
      current = λ k x h le.
          lookup-after_store node_id now (store c e) e done k x store-IsKeyed
            (insert-Distinct e.key e c.entries cc'.distinct)
            (store-current k x h (ground (arith, version_lem))) (cb.above e.key k e x at_b h);
      keyed = result_all (λ k x. x.key ≡ k) refl cc'.keyed;
      positive = result_all (λ k x. 0 < x.version) (cb.positive e.key e at_b) cc'.positive;
      seen =
          result_all (λ k x. x.version ≤ r.0.version) (ground (arith, version_lem))
            (λ k x h. ground (arith, version_lem, cc'.seen k x h));
      parses = result_all (λ k x. IsParsed x) (cb.parses e.key e at_b) cc'.parses;
      below = result_all (λ k x. floor x < x.version) (cb.below e.key e at_b) cc'.below;
      above = λ k j x y h g.
          result_all (λ k' x'. floor x' < y.version) (cb.above e.key j e y at_b g)
            (λ k' x' h'. cc'.above k' j x' y h' g) k x h;
      fate = result-Fate;
      unique = result_unique;
      top = inr (e.key, e, e_kept, sym version_lem);
    }
