-- ===== src/Upstream/LoadBalancer.antt =====
-- server/upstream/manager.go: loadBalancer, round-robin over the upstreams of one endpoint. An
-- upstream is compared by identity. A panic is `none`.
use pico.Prelude.{
  ℕ, ◌+◌, ◌%◌, Bool, true, false, List, [], ◌∷◌, ◌++◌, Option, none, some, length, get_elem?, ◌==◌,
  if◌then◌else◌, ◌>>=◌,
}

pub record LoadBalancer {ℓ} (U : Type ℓ) : Type ℓ where
  pub upstreams : List U
  pub next_index : ℕ

module _ {ℓ} {U : Type ℓ} where
  abbrev pub new_load_balancer : LoadBalancer U
  new_load_balancer = record { upstreams = []; next_index = 0 }

  -- `Add`
  unfoldable pub add : LoadBalancer U → U → LoadBalancer U
  add lb u = record lb { upstreams = lb.upstreams ++ u ∷ [] }

  -- `Next`. An int counts the upstreams of a slice, so that `next_index + 1` does not wrap.
  unfoldable pub next : LoadBalancer U → Option (Option U × LoadBalancer U)
  next lb =
      if length lb.upstreams == 0
      then some (none, lb)
      else (get_elem? lb.upstreams lb.next_index >>= λ u.
          some (some u, record lb { next_index = (lb.next_index + 1) % length lb.upstreams }))

module _ {ℓ} {U : Type ℓ} (dec : Discrete U) where
  -- The list without its first `u`, if it has one: the loop of `Remove`.
  unfoldable pub without : U → List U → Option (List U)
  without u [] = none
  without u (x ∷ xs) = elim (dec x u) [
    | yes p ↦ some xs
    | no p ↦ elim (without u xs) [ none ↦ none | some rest ↦ some (x ∷ rest) ]
  ]

  -- What `Remove` does with the slice that is left.
  abbrev pub removed : LoadBalancer U → List U → LoadBalancer U × Bool
  removed lb rest =
      if length rest == 0
      then (record lb { upstreams = rest }, true)
      else (record { upstreams = rest; next_index = lb.next_index % length rest }, false)

  -- `Remove`; it tells whether no upstream is left.
  unfoldable pub remove : LoadBalancer U → U → LoadBalancer U × Bool
  unfolding without
  remove lb u = elim (without u lb.upstreams) [
    | none ↦ (lb, length lb.upstreams == 0)
    | some rest ↦ removed lb rest
  ]
