-- ===== src/Upstream/Agreement.antt =====
-- server/upstream/manager.go: AddConn, and what the manager holds beside what the cluster state
-- counts.
use pico.Prelude.{
  ℕ, ◌+◌, ◌^◌, ◌<◌, ◌≡◌, refl, ◌∙◌, GoString, lookup, insert, List, [], ◌∷◌, ◌++◌, some, none,
  arith, length, str_dec, ite, length-append, lookup-insert, inl, inr, Option-cases,
}
use pico.Prelude.Int64.{add_int64}
use pico.Cluster.Types.{Node}
use pico.Cluster.State.{
  State, call_local, local_node, put_node, set_listeners, listeners_or_zero, add_local_endpoint,
}
use pico.Upstream.LoadBalancer.{LoadBalancer, add}
use pico.Upstream.Manager.{
  Conn, Manager, Usage, ManagerCall, counter_inc, registered, as_calls, connected_inc,
  balancer_or_new, add_conn,
}
use pico.Upstream.RoundRobin.{InRange, add-InRange}

-- What the cluster state counts.
abbrev pub counted : State → GoString → ℕ
counted s e = elim (local_node s) [ none ↦ 0 | some n ↦ listeners_or_zero (lookup e n.endpoints) ]

-- What the manager holds.
abbrev pub held : Manager → GoString → List Conn
held m e = elim (lookup e m.local_upstreams) [ none ↦ [] | some lb ↦ lb.upstreams ]

pub record Agrees (m : Manager) (s : State) : Type 0 where
  pub local : Node
  pub known : local_node s ≡ some local
  pub counts : (e : GoString) → counted s e ≡ length (held m e)
  pub in_range :
      (e : GoString) (lb : LoadBalancer Conn) → lookup e m.local_upstreams ≡ some lb → InRange lb
  pub fits : (e : GoString) → length (held m e) < 2 ^ 63

module _ (m : Manager) (s : State) (k : GoString) (h : Agrees m s) where
  -- The endpoint `k` changes, on both sides alike.
  pub updated-Agrees :
      (m' : Manager) (s' : State) (n : Node) (us : List Conn)
      → local_node s' ≡ some n
      → ((e : GoString)
          → listeners_or_zero (lookup e n.endpoints)
            ≡ ite (str_dec k e) (length us) (listeners_or_zero (lookup e h.local.endpoints)))
      → ((e : GoString) → held m' e ≡ ite (str_dec k e) us (held m e))
      → ((e : GoString) (lb : LoadBalancer Conn)
          → lookup e m'.local_upstreams ≡ some lb
          → InRange lb)
      → length us < 2 ^ 63
      → Agrees m' s'
  updated-Agrees m' s' n us known counts holds in_range fits = record {
    local = n;
    known = known;
    counts = λ e. ground (arith, known, counts e, holds e, h.known, h.counts e);
    in_range = in_range;
    fits = λ e. ground (arith, holds e, fits, h.fits e);
  }

  pub put_known : (n : Node) → local_node (put_node s s.local_id n) ≡ some n
  put_known n = ground (arith, lookup-insert s.local_id s.local_id n s.nodes)

  pub held_put :
      (lb : LoadBalancer Conn) (usage : Usage) (e : GoString)
      → held (record { local_upstreams = insert k lb m.local_upstreams; usage = usage }) e
        ≡ ite (str_dec k e) lb.upstreams (held m e)
  held_put lb usage e = ground (arith, lookup-insert k e lb m.local_upstreams)

  pub listeners_put :
      (l : ℕ) (e : GoString)
      → listeners_or_zero (lookup e (insert k l h.local.endpoints))
        ≡ ite (str_dec k e) l (listeners_or_zero (lookup e h.local.endpoints))
  listeners_put l e = ground (arith, lookup-insert k e l h.local.endpoints)

  pub counted_local : listeners_or_zero (lookup k h.local.endpoints) ≡ length (held m k)
  counted_local = ground (arith, h.known, h.counts k)

module _ (m : Manager) (s : State) (u : Conn) (h : Agrees m s) where
  add_balancer-InRange : InRange (add (balancer_or_new (lookup u.endpoint_id m.local_upstreams)) u)
  unfolding add
  add_balancer-InRange = elim (Option-cases (lookup u.endpoint_id m.local_upstreams)) [
    | inl new ↦ rw new (omega arith)
    | inr (lb, found) ↦ rw found (add-InRange lb u (inr (h.in_range u.endpoint_id lb found)))
  ]

  pub InRange-put :
      (lb : LoadBalancer Conn)
      → InRange lb
      → (e : GoString) (lb' : LoadBalancer Conn)
      → lookup e (insert u.endpoint_id lb m.local_upstreams) ≡ some lb'
      → InRange lb'
  InRange-put lb at e lb' found =
      ground
        (arith, at, found, h.in_range e lb', lookup-insert u.endpoint_id e lb m.local_upstreams)

  balancer_holds :
      (add (balancer_or_new (lookup u.endpoint_id m.local_upstreams)) u).upstreams
      ≡ held m u.endpoint_id ++ u ∷ []
  unfolding add
  balancer_holds = elim (Option-cases (lookup u.endpoint_id m.local_upstreams)) [
    | inl new ↦ ground (arith, new)
    | inr (lb, found) ↦ ground (arith, found)
  ]

  added_count :
      length (held m u.endpoint_id) + 1 < 2 ^ 63
      → add_int64 (listeners_or_zero (lookup u.endpoint_id h.local.endpoints)) 1
        ≡ length (held m u.endpoint_id ++ u ∷ [])
  added_count room =
      omega
        (arith, counted_local m s u.endpoint_id h, length-append (held m u.endpoint_id) (u ∷ []))

  -- If the manager's connections agree with the cluster state's counts and one more of the
  -- endpoint fits an int, AddConn does not panic, appends the connection to those of its
  -- endpoint, and they agree afterwards.
  pub add_conn-Agrees :
      length (held m u.endpoint_id) + 1 < 2 ^ 63
      → (m' : Manager) × (s' : State) × (calls : List ManagerCall) × (add_conn m s u
          ≡ some (m', s', calls))
        × Agrees m' s'
        × (held m' u.endpoint_id ≡ held m u.endpoint_id ++ u ∷ [])
  unfolding add_conn add_local_endpoint
  add_conn-Agrees room =
      let k = u.endpoint_id in
      let lb = add (balancer_or_new (lookup k m.local_upstreams)) u in
      let m' : Manager = record {
        local_upstreams = insert k lb m.local_upstreams;
        usage = record m.usage { upstreams = counter_inc m.usage.upstreams };
      } in
      let count = add_int64 (listeners_or_zero (lookup k h.local.endpoints)) 1 in
      let n = set_listeners h.local k count in
      (
        m',
        put_node s s.local_id n,
        registered (lookup k m.local_upstreams)
            ++ as_calls (call_local s.local_endpoint_subscribers k)
            ++ connected_inc ∷ [],
        rw h.known refl,
        updated-Agrees m s k h m' (put_node s s.local_id n) n (held m k ++ u ∷ [])
            (put_known m s k h n) (λ e. rw⁻¹ (added_count room) (listeners_put m s k h count e))
            (λ e. rw⁻¹ balancer_holds (held_put m s k h lb m'.usage e))
            (InRange-put lb add_balancer-InRange)
            (omega (arith, room, length-append (held m k) (u ∷ []))),
        held_put m s k h lb m'.usage k ∙ ground (arith, balancer_holds),
      )
