-- ===== src/Gossip/Sync/Nodes.antt =====
-- Whole cluster states: every node's copy of every other, through `ApplyDigest`, `Delta` and
-- `ApplyDelta`.
use pico.Prelude.{
  ℕ, ◌≤◌, ◌≡◌, ◌∙◌, refl, subst, inl, inr, GoString, Distinct, lookup, insert, List, [], ◌∷◌, ◌++◌,
  some, none, arith, str_dec, All, lookup-insert, insert-Distinct, Option, Option-cases, Bool-cases,
  leb,
}
use pico.Gossip.Types.{Time, Entry, NodeState, DigestEntry, Digest, DeltaEntry, Delta}
use pico.Gossip.State.{ClusterState, new_node}
use pico.Gossip.Delta.{delta_entry}
use pico.Gossip.Apply.{
  store, after_store, apply_entries, apply_delta_entry, apply_delta, apply_digest_entry,
  apply_digest, found_or_joined,
}
use pico.Gossip.Floor.{id-after_store}
use pico.Gossip.Sync.{Consistent, WellFormed}
use pico.Gossip.Sync.Loop.{Caught}
use pico.Gossip.Sync.Exchange.{exchange-Caught}
use pico.Gossip.Sync.Owner.{new_node-Consistent}

pub id-apply_entries :
    (node_id : GoString) (now : Time) (es : List Entry) (n : NodeState)
    → (apply_entries node_id now es n).0.id ≡ n.id
unfolding apply_entries
id-apply_entries node_id now [] n = refl
id-apply_entries node_id now (e ∷ es) n = elim (Bool-cases (leb e.version n.version)) [
  | inl old ↦ rw (old, apply_entries) (id-apply_entries node_id now es n)
  | inr new ↦ elim (Option-cases (after_store node_id now (store n e) e)) [
    | inl failed ↦ rw (new, apply_entries, failed) refl
    | inr (r, done) ↦
        rw (new, apply_entries, done)
          (id-apply_entries node_id now es r.0 ∙ id-after_store node_id now (store n e) e done)
  ]
]

pub All-map {ℓ κ} :
    {A : Type 0} (P : A → Type ℓ) (Q : A → Type κ) (xs : List A)
    → ((a : A) → P a → Q a)
    → All P xs
    → All Q xs
All-map P Q [] f h = tt
All-map P Q (x ∷ xs) f h = (f x h.0, All-map P Q xs f h.1)

-- Each state that `s` keeps is a copy of its owner's state, under its own ID.
pub record Tracks (owner : GoString → NodeState) (s : ClusterState) : Type 0 where
  pub copies :
      (id : GoString) (n : NodeState) → lookup id s.nodes ≡ some n → Consistent (owner id) n
  pub distinct : Distinct s.nodes
  pub ids : (id : GoString) (n : NodeState) → lookup id s.nodes ≡ some n → n.id ≡ id

abbrev pub version_of : Option NodeState → ℕ
version_of none = 0
version_of (some n) = n.version

-- The version that a state has of a node; 0 of one that it does not know.
abbrev pub known_version : ClusterState → GoString → ℕ
known_version s id = version_of (lookup id s.nodes)

-- A front part of the delta that `b` makes for a node, from a version that `c` had.
pub record Sent (b c : ClusterState) (d : DeltaEntry) : Type 0 where
  pub state : NodeState
  pub held : lookup d.id b.nodes ≡ some state
  pub from_version : ℕ
  pub asked : from_version ≤ known_version c d.id
  pub unsent : List Entry
  pub split : d.entries ++ unsent ≡ (delta_entry state from_version).entries

pub Sent-later :
    (b s s' : ClusterState) (d : DeltaEntry)
    → known_version s d.id ≤ known_version s' d.id
    → Sent b s d
    → Sent b s' d
Sent-later b s s' d le x = record {
  state = x.state;
  held = x.held;
  from_version = x.from_version;
  asked = omega (arith, x.asked);
  unsent = x.unsent;
  split = x.split;
}

module _ (owner : GoString → NodeState) (well : (id : GoString) → WellFormed (owner id)) where
  -- The state under one ID is replaced by a copy.
  pub insert-Tracks :
      (s : ClusterState) (id : GoString) (n : NodeState)
      → Tracks owner s
      → Consistent (owner id) n
      → n.id ≡ id
      → Tracks owner (record s { nodes = insert id n s.nodes })
  insert-Tracks s id n t cn at = record {
    copies = λ k m h. elim (str_dec id k) [
      | yes p ↦ let same : m ≡ n = ground (arith, lookup-insert id k n s.nodes) in rw (← p, same) cn
      | no p ↦ t.copies k m (ground (arith, lookup-insert id k n s.nodes))
    ];
    distinct = insert-Distinct id n s.nodes t.distinct;
    ids = λ k m h. elim (str_dec id k) [
      | yes p ↦ let same : m ≡ n = ground (arith, lookup-insert id k n s.nodes) in rw same (at ∙ p)
      | no p ↦ t.ids k m (ground (arith, lookup-insert id k n s.nodes))
    ];
  }

  apply_digest_entry-Tracks :
      (s : ClusterState) (d : DigestEntry)
      → Tracks owner s
      → Tracks owner (apply_digest_entry s d).0
  unfolding apply_digest_entry
  apply_digest_entry-Tracks s d t = elim (Option-cases (lookup d.id s.nodes)) [
    | inr (n, known) ↦ subst (Tracks owner) (ground arith) t
    | inl unknown ↦ elim (Bool-cases d.left) [
      | inl left ↦ subst (Tracks owner) (ground arith) t
      | inr live ↦ subst (Tracks owner) (ground arith) (
          insert-Tracks s d.id (new_node d.id d.addr) t
            (new_node-Consistent (owner d.id) d.id d.addr (well d.id).positive) refl)
    ]
  ]

  known-apply_digest_entry :
      (s : ClusterState) (d : DigestEntry) (id : GoString)
      → known_version s id ≤ known_version (apply_digest_entry s d).0 id
  unfolding apply_digest_entry
  known-apply_digest_entry s d id =
      ground (arith, lookup-insert d.id id (new_node d.id d.addr) s.nodes)

  pub known-apply_digest :
      (ds : Digest) (s : ClusterState) (id : GoString)
      → known_version s id ≤ known_version (apply_digest s ds).0 id
  unfolding apply_digest
  known-apply_digest [] s id = omega arith
  known-apply_digest (d ∷ ds) s id =
      omega (
        arith,
        known-apply_digest_entry s d id,
        known-apply_digest ds (apply_digest_entry s d).0 id,
      )

  -- What a digest makes known are copies.
  pub apply_digest-Tracks :
      (ds : Digest) (s : ClusterState) → Tracks owner s → Tracks owner (apply_digest s ds).0
  unfolding apply_digest
  apply_digest-Tracks [] s t = t
  apply_digest-Tracks (d ∷ ds) s t =
      apply_digest-Tracks ds (apply_digest_entry s d).0 (apply_digest_entry-Tracks s d t)

  module _ (b : ClusterState) (tb : Tracks owner b) where
    -- The copy that a delta is applied to.
    found-Consistent :
        (s : ClusterState) (d : DeltaEntry)
        → Tracks owner s
        → Consistent (owner d.id) (found_or_joined d (lookup d.id s.nodes)).0
          × ((found_or_joined d (lookup d.id s.nodes)).0.id ≡ d.id)
          × ((found_or_joined d (lookup d.id s.nodes)).0.version ≡ known_version s d.id)
    found-Consistent s d t = elim (Option-cases (lookup d.id s.nodes)) [
      | inr (n, known) ↦ rw known (t.copies d.id n known, t.ids d.id n known, refl)
      | inl unknown ↦
          rw unknown (new_node-Consistent (owner d.id) d.id d.addr (well d.id).positive, refl, refl)
    ]

    taken :
        (s : ClusterState) (now : Time) (d : DeltaEntry)
        → Tracks owner s
        → (sent : Sent b s d)
        → Caught
            (owner d.id)
            sent.state
            (found_or_joined d (lookup d.id s.nodes)).0
            (apply_entries d.id now d.entries (found_or_joined d (lookup d.id s.nodes)).0).0
            d.entries
    taken s now d t sent =
        let (cn, at, level) = found-Consistent s d t in
        exchange-Caught (owner d.id) sent.state _ (tb.copies d.id sent.state sent.held) cn d.id now
          sent.from_version (omega (arith, sent.asked, level)) d.entries sent.unsent sent.split

    apply_delta_entry-Tracks :
        (s : ClusterState) (now : Time) (d : DeltaEntry)
        → Tracks owner s
        → Sent b s d
        → Tracks owner (apply_delta_entry s now d).0
    unfolding apply_delta_entry
    apply_delta_entry-Tracks s now d t sent = elim (str_dec d.id s.local_id) [
      | yes local ↦ subst (Tracks owner) (ground arith) t
      | no p ↦
          let (cn, at, level) = found-Consistent s d t in
          subst (Tracks owner) (ground arith) (
            insert-Tracks s d.id _ t (taken s now d t sent).consistent
              (id-apply_entries d.id now d.entries _ ∙ at))
    ]

    known-apply_delta_entry :
        (s : ClusterState) (now : Time) (d : DeltaEntry) (id : GoString)
        → Tracks owner s
        → Sent b s d
        → known_version s id ≤ known_version (apply_delta_entry s now d).0 id
    unfolding apply_delta_entry
    known-apply_delta_entry s now d id t sent =
        let n = (found_or_joined d (lookup d.id s.nodes)).0 in
        ground (
          arith,
          (taken s now d t sent).grown,
          (found-Consistent s d t).2,
          lookup-insert d.id id (apply_entries d.id now d.entries n).0 s.nodes,
        )

    pub known-apply_delta :
        (ds : Delta) (s : ClusterState) (now : Time) (id : GoString)
        → Tracks owner s
        → All (Sent b s) ds
        → known_version s id ≤ known_version (apply_delta s now ds).0 id
    unfolding apply_delta
    known-apply_delta [] s now id t sent = omega arith
    known-apply_delta (d ∷ ds) s now id t sent = omega (
      arith,
      known-apply_delta_entry s now d id t sent.0,
      known-apply_delta ds (apply_delta_entry s now d).0 now id
          (apply_delta_entry-Tracks s now d t sent.0)
          (All-map (Sent b s) (Sent b (apply_delta_entry s now d).0) ds
            (λ e h.
              Sent-later b s (apply_delta_entry s now d).0 e
                (known-apply_delta_entry s now d e.id t sent.0) h)
            sent.1),
    )

    -- Taking in a delta, cut off anywhere and possibly late, keeps every state a copy.
    pub apply_delta-Tracks :
        (ds : Delta) (s : ClusterState) (now : Time)
        → Tracks owner s
        → All (Sent b s) ds
        → Tracks owner (apply_delta s now ds).0
    unfolding apply_delta
    apply_delta-Tracks [] s now t sent = t
    apply_delta-Tracks (d ∷ ds) s now t sent =
        apply_delta-Tracks ds (apply_delta_entry s now d).0 now
          (apply_delta_entry-Tracks s now d t sent.0)
          (All-map _ _ ds
            (λ e h.
              Sent-later b s (apply_delta_entry s now d).0 e
                (known-apply_delta_entry s now d e.id t sent.0) h)
            sent.1)
