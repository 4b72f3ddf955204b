-- ===== src/Gossip/Expiry.antt =====
-- pkg/gossip/state.go: what RemoveExpiredAt removes.
use pico.Prelude.{
  ◌≡◌, ◌∙◌, refl, ap, inl, inr, GoString, lookup, delete, values, List, [], ◌∷◌, Option, some, none,
  true, arith, Elem, Option-cases, Bool-cases, if◌then◌else◌, Elem-values, values-Elem, Distinct,
  if_neg, str_dec, sym, subst, lookup-delete,
}
use pico.Gossip.Types.{Time, NodeState}
use pico.Gossip.State.{ClusterState}
use pico.Gossip.Detector.{remove_window}
use pico.Gossip.Liveness.{is_expired, expired_ids, remove_nodes, remove_expired_at}

-- Every state stands under its own ID.
abbrev pub IsNamed : ClusterState → Type 0
IsNamed s = (k : GoString) (n : NodeState) → lookup k s.nodes ≡ some n → n.id ≡ k

lookup-remove_nodes-none :
    (ids : List GoString) (s : ClusterState) (k : GoString)
    → lookup k s.nodes ≡ none
    → lookup k (remove_nodes s ids).0.nodes ≡ none
unfolding remove_nodes
lookup-remove_nodes-none [] s k h = h
lookup-remove_nodes-none (id ∷ ids) s k h =
    lookup-remove_nodes-none ids
      (record s {
        nodes = delete id s.nodes;
        failure_detector = remove_window s.failure_detector id;
      })
      k (ground (arith, h, lookup-delete id k s.nodes))

lookup-remove_nodes_listed :
    (ids : List GoString) (s : ClusterState) (k : GoString)
    → Elem k ids
    → lookup k (remove_nodes s ids).0.nodes ≡ none
unfolding remove_nodes
lookup-remove_nodes_listed [] s k there = absurd there
lookup-remove_nodes_listed (id ∷ ids) s k (inl same) =
    lookup-remove_nodes-none ids
      (record s {
        nodes = delete id s.nodes;
        failure_detector = remove_window s.failure_detector id;
      })
      k (ground (arith, same, lookup-delete id k s.nodes))
lookup-remove_nodes_listed (id ∷ ids) s k (inr there) =
    lookup-remove_nodes_listed ids
      (record s {
        nodes = delete id s.nodes;
        failure_detector = remove_window s.failure_detector id;
      })
      k there

lookup-remove_nodes_other :
    (ids : List GoString) (s : ClusterState) (k : GoString)
    → ¬ Elem k ids
    → lookup k (remove_nodes s ids).0.nodes ≡ lookup k s.nodes
unfolding remove_nodes
lookup-remove_nodes_other [] s k away = refl
lookup-remove_nodes_other (id ∷ ids) s k away =
    lookup-remove_nodes_other ids
      (record s {
        nodes = delete id s.nodes;
        failure_detector = remove_window s.failure_detector id;
      })
      k (λ there. away (inr there))
    ∙ (lookup-delete id k s.nodes ∙ if_neg (str_dec id k) (λ p. away (inl (sym p))) _ _)

-- The expired nodes are those that the first loop lists.
Elem-expired_ids :
    (t : Time) (ns : List NodeState) (n : NodeState)
    → Elem n ns
    → is_expired t n ≡ true
    → Elem n.id (expired_ids t ns)
unfolding expired_ids
Elem-expired_ids t [] n there old = absurd there
Elem-expired_ids t (x ∷ ns) n (inl same) old =
    let gone = subst (λ y. is_expired t y ≡ true) same old in rw gone (inl (ap (λ y. y.id) same))
Elem-expired_ids t (x ∷ ns) n (inr there) old = ground (arith, Elem-expired_ids t ns n there old)

expired_ids-Elem :
    (t : Time) (ns : List NodeState) (k : GoString)
    → Elem k (expired_ids t ns)
    → (n : NodeState) × Elem n ns × (n.id ≡ k) × (is_expired t n ≡ true)
unfolding expired_ids
expired_ids-Elem t [] k there = absurd there
expired_ids-Elem t (x ∷ ns) k there = elim (Bool-cases (is_expired t x)) [
  | inr alive ↦
      let (n, at, same, old) = expired_ids-Elem t ns k (ground (arith, there, alive)) in
      (n, inr at, same, old)
  | inl gone ↦ elim (rw gone at there) [
    | inl here ↦ (x, inl refl, sym here, gone)
    | inr later ↦ let (n, at, same, old) = expired_ids-Elem t ns k later in (n, inr at, same, old)
  ]
]

abbrev pub still_there : Time → Option NodeState → Option NodeState
still_there t none = none
still_there t (some n) = if is_expired t n then none else some n

-- Where each state stands under its own ID and once, RemoveExpiredAt removes exactly the nodes
-- that have expired and leaves the others as they are.
pub lookup-remove_expired_at :
    (s : ClusterState) (t : Time) (k : GoString)
    → IsNamed s
    → Distinct s.nodes
    → lookup k (remove_expired_at s t).0.nodes ≡ still_there t (lookup k s.nodes)
unfolding remove_expired_at
lookup-remove_expired_at s t k named distinct = elim (Option-cases (lookup k s.nodes)) [
  | inl unknown ↦
      lookup-remove_nodes-none (expired_ids t (values s.nodes)) s k unknown
      ∙ ground (arith, unknown)
  | inr (n, found) ↦ elim (Bool-cases (is_expired t n)) [
    | inl old ↦
        lookup-remove_nodes_listed (expired_ids t (values s.nodes)) s k (
          subst (λ j. Elem j (expired_ids t (values s.nodes))) (named k n found)
            (Elem-expired_ids t (values s.nodes) n (Elem-values k n s.nodes found) old))
        ∙ ground (arith, found, old)
    | inr alive ↦
        lookup-remove_nodes_other (expired_ids t (values s.nodes)) s k (λ listed.
          let (x, there, same, old) = expired_ids-Elem t (values s.nodes) k listed in
          let (j, at) = values-Elem x s.nodes distinct there in
          ground (arith, named j x at, at, same, old, found, alive))
        ∙ ground (arith, found, alive)
  ]
]
