-- ===== src/Gossip/Sync/Reversion.antt =====
-- The loop of `CompactLocal` that versions the kept entries anew.
use pico.Prelude.{
  ℕ, suc, ◌+◌, ◌^◌, ◌≤◌, ◌<◌, ◌≡◌, ◌⊎◌, refl, inl, inr, GoString, Distinct, lookup, List, [], ◌∷◌,
  some, false, arith, length, lookup-insert, insert-Distinct, Bool-cases,
}
use pico.Gossip.Types.{Entry, NodeState, next_version}
use pico.Gossip.Local.{is_discarded, reversion, reversion_all, write_entry}
use pico.Gossip.Floor.{floor, IsParsed}

pub next_version_lem : (v : ℕ) → suc v < 2 ^ 64 → next_version v ≡ suc v
unfolding next_version
next_version_lem v h = omega arith

-- A kept entry is no compaction entry.
kept-floor : (e : Entry) (v : ℕ) → is_discarded e ≡ false → floor (record e { version = v }) ≡ 0
unfolding is_discarded floor
kept-floor e v h = ground arith

kept-IsParsed : (e : Entry) (v : ℕ) → is_discarded e ≡ false → IsParsed (record e { version = v })
unfolding is_discarded
kept-IsParsed e v h i p = absurd (ground arith)

-- What holds of the entries that the loop has stored above the version `v`.
pub record Reversioned (v : ℕ) (n : NodeState) : Type 0 where
  pub distinct : Distinct n.entries
  pub from : v ≤ n.version
  pub keyed : (k : GoString) (e : Entry) → lookup k n.entries ≡ some e → e.key ≡ k
  pub later : (k : GoString) (e : Entry) → lookup k n.entries ≡ some e → v < e.version
  pub seen : (k : GoString) (e : Entry) → lookup k n.entries ≡ some e → e.version ≤ n.version
  pub parses : (k : GoString) (e : Entry) → lookup k n.entries ≡ some e → IsParsed e
  pub ground_level : (k : GoString) (e : Entry) → lookup k n.entries ≡ some e → floor e ≡ 0
  pub unique :
      (k j : GoString) (e x : Entry)
      → lookup k n.entries ≡ some e
      → lookup j n.entries ≡ some x
      → e.version ≡ x.version
      → e ≡ x

stored_cases :
    (n : NodeState) (e : Entry) (k : GoString) (x : Entry)
    → lookup k (write_entry n e).entries ≡ some x
    → ((k ≡ e.key) × (x ≡ e)) ⊎ (lookup k n.entries ≡ some x)
stored_cases n e k x h = ground (arith, lookup-insert e.key k e n.entries)

-- One entry is stored under the next version.
module _ (v : ℕ) (n : NodeState) (e : Entry) (r : Reversioned v n)
    (next : e.version ≡ suc n.version) (flat : floor e ≡ 0) (parsed : IsParsed e) where
  stored_all {κ} :
      (P : GoString → Entry → Type κ)
      → P e.key e
      → ((k : GoString) (x : Entry) → lookup k n.entries ≡ some x → P k x)
      → (k : GoString) (x : Entry) → lookup k (write_entry n e).entries ≡ some x
      → P k x
  stored_all P pe pn k x h = elim (stored_cases n e k x h) [
    | inl (p, q) ↦ rw (p, q) pe
    | inr old ↦ pn k x old
  ]

  write_entry-Reversioned : Reversioned v (write_entry n e)
  write_entry-Reversioned = record {
    distinct = insert-Distinct e.key e n.entries r.distinct;
    from = omega (arith, r.from);
    keyed = stored_all (λ k x. x.key ≡ k) refl r.keyed;
    later = stored_all (λ k x. v < x.version) (omega (arith, r.from)) r.later;
    seen =
        stored_all (λ k x. x.version ≤ e.version) (omega arith)
          (λ k x h. omega (arith, r.seen k x h));
    parses = stored_all (λ k x. IsParsed x) parsed r.parses;
    ground_level = stored_all (λ k x. floor x ≡ 0) flat r.ground_level;
    unique = λ k j x y h g p. ground (
      arith,
      stored_cases n e k x h,
      stored_cases n e j y g,
      r.seen k x,
      r.seen j y,
      r.unique k j x y,
    );
  }

reversion-Reversioned :
    (v : ℕ) (n : NodeState) (e : Entry)
    → suc n.version < 2 ^ 64
    → Reversioned v n
    → Reversioned v (reversion n e)
unfolding reversion
reversion-Reversioned v n e fits r = elim (Bool-cases (is_discarded e)) [
  | inl drop ↦ rw (drop, reversion) r
  | inr keep ↦
      rw (keep, reversion)
        (write_entry-Reversioned v n (record e { version = next_version n.version }) r
          (next_version_lem n.version fits) (kept-floor e (next_version n.version) keep)
          (kept-IsParsed e (next_version n.version) keep))
]

version-reversion :
    (n : NodeState) (e : Entry)
    → suc n.version < 2 ^ 64
    → (n.version ≤ (reversion n e).version) × ((reversion n e).version ≤ suc n.version)
unfolding reversion
version-reversion n e fits = ground (arith, next_version_lem n.version)

pub reversion_all-Reversioned :
    (v : ℕ) (es : List Entry) (n : NodeState)
    → n.version + length es < 2 ^ 64
    → Reversioned v n
    → Reversioned v (reversion_all n es) × ((reversion_all n es).version ≤ n.version + length es)
unfolding reversion_all
reversion_all-Reversioned v [] n fits r = (r, omega arith)
reversion_all-Reversioned v (e ∷ es) n fits r =
    let (low, high) = version-reversion n e (omega arith) in
    let (rest, bound) =
      reversion_all-Reversioned v es (reversion n e) (omega arith)
        (reversion-Reversioned v n e (omega arith) r) in
    (rest, omega arith)

pub version-reversion_all :
    (es : List Entry) (n : NodeState)
    → n.version + length es < 2 ^ 64
    → n.version ≤ (reversion_all n es).version
unfolding reversion_all
version-reversion_all [] n fits = omega arith
version-reversion_all (e ∷ es) n fits =
    let (low, high) = version-reversion n e (omega arith) in
    omega (arith, version-reversion_all es (reversion n e))
