-- ===== src/Cluster/Lookup.antt =====
-- server/cluster/state.go: which node LookupEndpoint finds.
use pico.Prelude.{
  ◌≡◌, ◌≢◌, ◌⊎◌, ◌∙◌, refl, inl, inr, GoString, values, List, [], ◌∷◌, true, some, none, arith,
  str_dec, Elem, All, Bool-cases,
}
use pico.Cluster.Types.{Node}
use pico.Cluster.State.{State, is_active, serves, lookup_endpoint_in, lookup_endpoint}

-- A node that can serve the endpoint for another: it is remote, active and has a listener.
abbrev pub CanServe : GoString → GoString → Node → Type 0
CanServe local_id endpoint_id n =
    (n.id ≢ local_id) × (is_active n ≡ true) × (serves endpoint_id n ≡ true)

module _ (local_id endpoint_id : GoString) where
  -- One round of the loop.
  head_cases :
      (n : Node) (ns : List Node)
      → ((lookup_endpoint_in local_id endpoint_id (n ∷ ns)
            ≡ lookup_endpoint_in local_id endpoint_id ns)
          × (¬ CanServe local_id endpoint_id n))
        ⊎ ((lookup_endpoint_in local_id endpoint_id (n ∷ ns) ≡ some n)
            × CanServe local_id endpoint_id n)
  unfolding lookup_endpoint_in
  head_cases n ns = elim (str_dec n.id local_id) [
    | yes p ↦ inl (ground arith, λ c. c.0 p)
    | no ne ↦ elim (Bool-cases (is_active n)) [
      | inr off ↦ inl (ground arith, λ c. absurd (ground (arith, c.1)))
      | inl on ↦ elim (Bool-cases (serves endpoint_id n)) [
        | inl has ↦ inr (ground arith, (ne, on, has))
        | inr hasnt ↦ inl (ground arith, λ c. absurd (ground (arith, c.2)))
      ]
    ]
  ]

  lookup_in :
      (ns : List Node)
      → ((lookup_endpoint_in local_id endpoint_id ns ≡ none)
          × All (λ n. ¬ CanServe local_id endpoint_id n) ns)
        ⊎ ((n : Node) × (lookup_endpoint_in local_id endpoint_id ns ≡ some n)
            × Elem n ns
            × CanServe local_id endpoint_id n)
  unfolding lookup_endpoint_in
  lookup_in [] = inl (refl, tt)
  lookup_in (n ∷ ns) = elim (head_cases n ns) [
    | inr (found, c) ↦ inr (n, found, inl refl, c)
    | inl (skip, c) ↦ elim (lookup_in ns) [
      | inl (missing, all) ↦ inl (skip ∙ missing, (c, all))
      | inr (m, found, there, c') ↦ inr (m, skip ∙ found, inr there, c')
    ]
  ]

-- LookupEndpoint finds no node when no known node is remote, active and with a listener of the
-- endpoint; otherwise it finds a known node that is.
pub lookup_endpoint_lem :
    (s : State) (endpoint_id : GoString)
    → ((lookup_endpoint s endpoint_id ≡ none)
        × All (λ n. ¬ CanServe s.local_id endpoint_id n) (values s.nodes))
      ⊎ ((n : Node) × (lookup_endpoint s endpoint_id ≡ some n)
          × Elem n (values s.nodes)
          × CanServe s.local_id endpoint_id n)
unfolding lookup_endpoint
lookup_endpoint_lem s endpoint_id = lookup_in s.local_id endpoint_id (values s.nodes)
