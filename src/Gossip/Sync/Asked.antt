-- ===== src/Gossip/Sync/Asked.antt =====
-- pkg/gossip/state.go: Delta, as the answer to a digest.
use mathlib.Core.List.{append-nil}
use pico.Prelude.{
  ℕ, ◌≤◌, ◌≡◌, refl, sym, subst, inl, inr, GoString, GoMap, lookup, values, values-Elem, List, [],
  ◌∷◌, ◌++◌, some, arith, All, Elem, Option-cases, Bool, true, false, Bool-cases,
}
use pico.Gossip.Types.{Time, Entry, NodeState, DigestEntry, Digest, DeltaEntry, Delta}
use pico.Gossip.State.{ClusterState}
use pico.Gossip.Delta.{
  delta_entry, delta_known, delta_unknown, delta, digest, digest_of, in_digest, with_entries,
}
use pico.Gossip.Apply.{apply_delta}
use pico.Gossip.Sync.{WellFormed}
use pico.Gossip.Sync.Nodes.{apply_delta-Tracks, Tracks, Sent, known_version}

All-append {κ} :
    {A : Type 0} (P : A → Type κ) (xs ys : List A) → All P xs → All P ys → All P (xs ++ ys)
All-append P [] ys hx hy = hy
All-append P (x ∷ xs) ys hx hy = (hx.0, All-append P xs ys hx.1 hy)

-- A digest entry that claims no more than `c` has.
abbrev pub IsAsked : ClusterState → DigestEntry → Type 0
IsAsked c d = d.version ≤ known_version c d.id

-- The digest of a state claims what the state has.
module _ (owner : GoString → NodeState) (c : ClusterState) (t : Tracks owner c) where
  digest_of-IsAsked :
      (ns : List NodeState)
      → ((n : NodeState) → Elem n ns → Elem n (values c.nodes))
      → All (IsAsked c) (digest_of ns)
  unfolding digest_of
  digest_of-IsAsked [] h = tt
  digest_of-IsAsked (n ∷ ns) h =
      let (k, found) = values-Elem n c.nodes t.distinct (h n (inl refl)) in
      let at = t.ids k n found in
      (ground (arith, at, found), digest_of-IsAsked ns (λ m e. h m (inr e)))

  pub digest-IsAsked : All (IsAsked c) (digest c)
  unfolding digest
  digest-IsAsked = digest_of-IsAsked (values c.nodes) (λ n e. e)

module _ (owner : GoString → NodeState) (b c : ClusterState) (tb : Tracks owner b) where
  -- A whole delta of one node, for a version that `c` has.
  pub delta_entry-Sent :
      (k : GoString) (n : NodeState) (v : ℕ)
      → lookup k b.nodes ≡ some n
      → v ≤ known_version c k
      → Sent b c (delta_entry n v)
  unfolding delta_entry
  delta_entry-Sent k n v found le =
      let at = tb.ids k n found in
      record {
        state = n;
        held = subst (λ j. lookup j b.nodes ≡ some n) (sym at) found;
        from_version = v;
        asked = subst (λ j. v ≤ known_version c j) (sym at) le;
        unsent = [];
        split = append-nil _;
      }

  with_entries-Sent :
      (d : DeltaEntry) (rest : Delta)
      → Sent b c d
      → All (Sent b c) rest
      → All (Sent b c) (with_entries d rest)
  with_entries-Sent d rest x xs = go d.entries
    where
      go : (es : List Entry) → All (Sent b c) (elim es [ [] ↦ rest | y ∷ ys ↦ d ∷ rest ])
      go [] = xs
      go (y ∷ ys) = (x, xs)

  delta_known-Sent : (ds : Digest) → All (IsAsked c) ds → All (Sent b c) (delta_known b.nodes ds)
  unfolding delta_known
  delta_known-Sent [] h = tt
  delta_known-Sent (d ∷ ds) h = elim (Option-cases (lookup d.id b.nodes)) [
    | inl unknown ↦ rw (unknown, delta_known) (delta_known-Sent ds h.1)
    | inr (n, found) ↦
        rw (found, delta_known)
          (with_entries-Sent (delta_entry n d.version) _
            (delta_entry-Sent d.id n d.version found h.0) (delta_known-Sent ds h.1))
  ]

  delta_unknown-Sent :
      (nodes : GoMap NodeState) (ds : Digest)
      → ((n : NodeState) → Elem n (values nodes) → Elem n (values b.nodes))
      → All (Sent b c) (delta_unknown nodes ds)
  unfolding delta_unknown values
  delta_unknown-Sent [] ds h = tt
  delta_unknown-Sent ((id, n) ∷ nodes) ds h = elim (Bool-cases (in_digest id ds)) [
    | inl known ↦ rw (known, delta_unknown) (delta_unknown-Sent nodes ds (λ m e. h m (inr e)))
    | inr new ↦
        let (k, found) = values-Elem n b.nodes tb.distinct (h n (inl refl)) in
        rw (new, delta_unknown)
          (
            delta_entry-Sent k n 0 found (omega arith),
            delta_unknown-Sent nodes ds (λ m e. h m (inr e)),
          )
  ]

  pub delta-Sent :
      (ds : Digest) (full : Bool) → All (IsAsked c) ds → All (Sent b c) (delta b ds full)
  unfolding delta
  delta-Sent ds true h =
      All-append (Sent b c) (delta_known b.nodes ds) (delta_unknown b.nodes ds)
        (delta_known-Sent ds h) (delta_unknown-Sent b.nodes ds (λ n e. e))
  delta-Sent ds false h =
      All-append (Sent b c) (delta_known b.nodes ds) [] (delta_known-Sent ds h) tt

-- If the owners' states are well formed and two nodes keep copies of them, then taking in the
-- delta that answers a node's own digest leaves every state of that node a copy of its owner's.
pub exchange-Tracks :
    (owner : GoString → NodeState) (b c : ClusterState)
    → ((id : GoString) → WellFormed (owner id))
    → Tracks owner b
    → Tracks owner c
    → (now : Time) (full : Bool) → Tracks owner (apply_delta c now (delta b (digest c) full)).0
exchange-Tracks owner b c well tb tc now full =
    apply_delta-Tracks owner well b tb (delta b (digest c) full) c now tc
      (delta-Sent owner b c tb (digest c) full (digest-IsAsked owner c tc))
