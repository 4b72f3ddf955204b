-- ===== src/Upstream/Routing.antt =====
-- server/upstream/manager.go: where Select sends a request; and what the local endpoints
-- publish.
use pico.Prelude.{
  ℕ, zero, suc, ◌+◌, ◌%◌, insert, subst, sym, ◌<◌, ◌^◌, ◌≡◌, ◌⊎◌, refl, ap, inl, inr, GoString,
  lookup, values, List, [], ◌∷◌, Option, some, none, Bool, true, false, arith, length, Elem,
  get_elem?, All, Option-cases, if◌then◌else◌,
}
use pico.Prelude.Int64.{is_positive}
use pico.Strconv.{itoa}
use pico.Cluster.State.{State, local_endpoint_listeners}
use pico.Cluster.Lookup.{CanServe, lookup_endpoint_lem}
use pico.Upstream.LoadBalancer.{LoadBalancer}
use pico.Upstream.Manager.{
  Conn, Upstream, conn, node, requests_inc, remote_requests_inc, counter_inc, Manager, ManagerCall,
  select,
}
use pico.Upstream.RoundRobin.{next_lem}
use pico.Upstream.Agreement.{Agrees, held}
use pico.Syncer.{GossipCall, upsert_local, delete_local, publish, endpoint_key}

Elem-get_elem? : {A : Type 0} (xs : List A) (i : ℕ) (a : A) → get_elem? xs i ≡ some a → Elem a xs
Elem-get_elem? [] i a h = cc
Elem-get_elem? (x ∷ xs) zero a h = inl (ground arith)
Elem-get_elem? (x ∷ xs) (suc i) a h = inr (Elem-get_elem? xs i a h)

-- What a request is sent to.
abbrev pub IsRoute : Manager → State → GoString → Bool → Option (Option Upstream) → Type 0
IsRoute m s e allow_remote (some (some (conn c))) = Elem c (held m e)
IsRoute m s e allow_remote (some (some (node e' n))) =
    (e' ≡ e)
    × (allow_remote ≡ true)
    × (held m e ≡ [])
    × Elem n (values s.nodes)
    × CanServe s.local_id e n
IsRoute m s e allow_remote (some none) = ⊥
IsRoute m s e allow_remote none =
    (held m e ≡ [])
    × ((allow_remote ≡ false) ⊎ All (λ n. ¬ CanServe s.local_id e n) (values s.nodes))

-- The call that tells gossip of an endpoint's connections.
abbrev pub published_count : List Conn → GoString → GossipCall
published_count [] e = delete_local (endpoint_key e)
published_count (c ∷ cs) e = upsert_local (endpoint_key e) (itoa (length (c ∷ cs)))

module _ (m : Manager) (s : State) (h : Agrees m s) (e : GoString) where
  -- The outcome of a call that does not panic.
  abbrev Routed : Bool → Type 0
  Routed allow_remote =
      (m' : Manager) × (route : Option (Option Upstream)) × (calls : List ManagerCall) × (select m s
          e allow_remote
        ≡ some (m', route, calls))
      × IsRoute m s e allow_remote route

  not_local : lookup e m.local_upstreams ≡ none → (allow_remote : Bool) → Routed allow_remote
  unfolding select
  not_local missing false =
      (m, none, [], rw (select, missing) refl, (ground (arith, missing), inl refl))
  not_local missing true = elim (lookup_endpoint_lem s e) [
    | inl (nowhere, all) ↦ (m, none, [], cc (missing, nowhere), (ground (arith, missing), inr all))
    | inr (n, found, there, can) ↦ (
      record m { usage = record m.usage { requests = counter_inc m.usage.requests } },
      some (some (node e n)),
      remote_requests_inc n.id ∷ [],
      cc (missing, found),
      (refl, refl, ground (arith, missing), there, can),
    )
  ]

  -- If the manager's connections agree with the cluster state's counts, Select does not panic. It
  -- gives a connection that is held for the endpoint if there is one; or else, if remote nodes
  -- are allowed, a known remote, active node with a listener if there is one; and otherwise
  -- nothing.
  pub select-IsRoute :
      (allow_remote : Bool)
      → (m' : Manager) × (route : Option (Option Upstream)) × (calls : List ManagerCall) × (select m
            s e allow_remote
          ≡ some (m', route, calls))
        × IsRoute m s e allow_remote route
  unfolding select
  select-IsRoute allow_remote = elim (Option-cases (lookup e m.local_upstreams)) [
    | inl missing ↦ not_local missing allow_remote
    | inr (lb, found) ↦
        let (u, at, step) = next_lem lb (h.in_range e lb found) in
        let same : held m e ≡ lb.upstreams = ground (arith, found) in
        let lb' : LoadBalancer Conn = record lb {
          next_index = (lb.next_index + 1) % length lb.upstreams;
        } in
        (
          record m { local_upstreams = insert e lb' m.local_upstreams },
          some (some (conn u)),
          requests_inc ∷ [],
          rw (select, found, step) refl,
          subst (Elem u) (sym same) (Elem-get_elem? lb.upstreams lb.next_index u at),
        )
  ]

  listeners_held : local_endpoint_listeners s e ≡ some (length (held m e))
  unfolding local_endpoint_listeners
  listeners_held = rw h.known (ap some (ground (arith, h.known, h.counts e)))

  -- If the manager's connections agree with the cluster state's counts, the update of a local
  -- endpoint sets its key in gossip to the number of the connections that are held, and deletes
  -- the key when there is none.
  pub publish-held : publish s e ≡ some (published_count (held m e) e)
  unfolding publish
  publish-held = rw listeners_held (go (held m e) (h.fits e))
    where
      go :
          (us : List Conn)
          → length us < 2 ^ 63
          → some (
              if is_positive (length us)
              then upsert_local (endpoint_key e) (itoa (length us))
              else delete_local (endpoint_key e))
            ≡ some (published_count us e)
      go [] fits = ground arith
      go (c ∷ cs) fits = ground (arith, fits)
