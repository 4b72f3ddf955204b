-- ===== src/Upstream/RoundRobin.antt =====
-- server/upstream/manager.go: the order of loadBalancer, and its index.
use native.Mathlib.Nat.{add-zero, mod-lt, mod-eq_of_lt, mod-add-mod}
use pico.Prelude.{
  ℕ, zero, suc, ◌+◌, ◌%◌, ◌<◌, ◌≡◌, ◌∙◌, ◌⊎◌, refl, sym, ap, List, [], ◌∷◌, Option, some, true,
  false, arith, length, get_elem?, length-append, ◌>>=◌, inl, inr, Option-cases,
}
use pico.Upstream.LoadBalancer.{LoadBalancer, add, next, without, remove}

module _ {ℓ} {U : Type ℓ} where
  -- The index points at an upstream.
  abbrev pub InRange : LoadBalancer U → Type 0
  InRange lb = lb.next_index < length lb.upstreams

  get_elem?-lt : (xs : List U) (i : ℕ) → i < length xs → (u : U) × (get_elem? xs i ≡ some u)
  get_elem?-lt [] i h = absurd (omega arith)
  get_elem?-lt (x ∷ xs) zero h = (x, refl)
  get_elem?-lt (x ∷ xs) (suc i) h = get_elem?-lt xs i (omega arith)

  -- `Next` does not panic: it gives the upstream at the index and moves the index on by one.
  pub next_lem :
      (lb : LoadBalancer U)
      → InRange lb
      → (u : U) × (get_elem? lb.upstreams lb.next_index ≡ some u)
        × (next lb
            ≡ some (some u, record lb { next_index = (lb.next_index + 1) % length lb.upstreams }))
  unfolding next
  next_lem lb h = let (u, at) = get_elem?-lt lb.upstreams lb.next_index h in (u, at, ground arith)

  -- The upstreams that `n` calls of `Next` give, and the balancer after them.
  abbrev pub next_many : ℕ → LoadBalancer U → Option (List (Option U) × LoadBalancer U)
  next_many zero lb = some ([], lb)
  next_many (suc n) lb = do (u, lb') ← next lb; (us, lb'') ← next_many n lb'; some (u ∷ us, lb'')

  -- The upstreams from an index on, round and round.
  abbrev pub in_turn : List U → ℕ → ℕ → List (Option U)
  in_turn us i zero = []
  in_turn us i (suc n) = get_elem? us (i % length us) ∷ in_turn us (i + 1) n

  in_turn-mod :
      (us : List U) (i n : ℕ) → 0 < length us → in_turn us (i % length us) n ≡ in_turn us i n
  in_turn-mod us i zero h = refl
  in_turn-mod us i (suc n) h =
      let wrapped = mod-eq_of_lt (mod-lt i h) in
      let before = in_turn-mod us (i % length us + 1) n h in
      let after = in_turn-mod us (i + 1) n h in
      cc (wrapped, before, after, mod-add-mod i (length us) 1)

  -- With the index in range, any number of calls of Next succeed, serve the upstreams in turn
  -- from the index on, round and round, and leave the upstreams as they are.
  pub next_many-in_turn :
      (n : ℕ) (lb : LoadBalancer U)
      → InRange lb
      → (lb' : LoadBalancer U) × (next_many n lb ≡ some (in_turn lb.upstreams lb.next_index n, lb'))
        × (lb'.upstreams ≡ lb.upstreams)
        × (lb'.next_index ≡ (lb.next_index + n) % length lb.upstreams)
  next_many-in_turn zero lb h = (lb, refl, refl, sym (rw add-zero (mod-eq_of_lt h)))
  next_many-in_turn (suc n) lb h =
      let (u, at, step) = next_lem lb h in
      let size = length lb.upstreams in
      let i = lb.next_index in
      let moved = record lb { next_index = (i + 1) % size } in
      let (lb', run, same, index) = next_many-in_turn n moved (mod-lt (i + 1) (omega arith)) in
      (
        lb',
        rw (step, run) (cc (at, mod-eq_of_lt h, in_turn-mod lb.upstreams (i + 1) n (omega arith))),
        same,
        index ∙ mod-add-mod (i + 1) size n ∙ ap (λ k. k % size) (omega arith),
      )

  pub add-InRange :
      (lb : LoadBalancer U) (u : U) → (lb.next_index ≡ 0) ⊎ InRange lb → InRange (add lb u)
  unfolding add
  add-InRange lb u h = omega (arith, length-append lb.upstreams (u ∷ []))

module _ {ℓ} {U : Type ℓ} (dec : Discrete U) where
  pub length-without :
      (u : U) (xs rest : List U) → without dec u xs ≡ some rest → length xs ≡ suc (length rest)
  unfolding without
  length-without u [] rest h = cc
  length-without u (x ∷ xs) rest h = elim (Option-cases (without dec u xs)) [
    | inl missing ↦ ground arith
    | inr (ys, found) ↦ ground (arith, length-without u xs ys found)
  ]

  -- With the index in range, Remove tells that the balancer is empty when it is, and otherwise
  -- leaves the index in range.
  pub remove-InRange :
      (lb : LoadBalancer U) (u : U)
      → InRange lb
      → (((remove dec lb u).1 ≡ true) × (length (remove dec lb u).0.upstreams ≡ 0))
        ⊎ (((remove dec lb u).1 ≡ false) × InRange (remove dec lb u).0)
  unfolding remove
  remove-InRange lb u h = elim (Option-cases (without dec u lb.upstreams)) [
    | inl missing ↦ ground arith
    | inr (rest, found) ↦ ground (
      arith,
      length-without u lb.upstreams rest found,
      λ (p : 0 < length rest). mod-lt lb.next_index p,
    )
  ]
