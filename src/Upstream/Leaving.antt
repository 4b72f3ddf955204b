-- ===== src/Upstream/Leaving.antt =====
-- server/upstream/manager.go: RemoveConn, and what the cluster state counts.
use native.Mathlib.Nat.{mod-lt}
use pico.Prelude.{
  ◌-◌, ◌%◌, ◌<◌, ◌≡◌, refl, sym, subst, ◌∙◌, GoString, lookup, List, [], ◌∷◌, ◌++◌, Option, some,
  none, arith, length, Elem, str_dec, ite, lookup-delete, lookup-insert, inl, inr, Option-cases,
}
use pico.Prelude.Int64.{sub_int64}
use pico.Cluster.State.{
  State, call_local, put_node, listeners_or_zero, remove_listener, remove_local_endpoint,
}
use pico.Upstream.LoadBalancer.{LoadBalancer, without, remove, removed}
use pico.Upstream.Manager.{
  Conn, Conn_discrete, Manager, ManagerCall, unregistered, after_remove, as_calls, connected_dec,
  remove_conn,
}
use pico.Upstream.RoundRobin.{InRange, length-without}
use pico.Upstream.Agreement.{
  Agrees, held, updated-Agrees, put_known, listeners_put, counted_local, InRange-put,
}

without-Elem :
    (u : Conn) (xs : List Conn)
    → Elem u xs
    → (rest : List Conn) × (without Conn_discrete u xs ≡ some rest)
unfolding without
without-Elem u [] here = absurd here
without-Elem u (x ∷ xs) (inl e) = go (Conn_discrete x u)
  where
    go :
        (d : Dec (x ≡ u))
        → (rest : List Conn) × (elim d as (λ d. Option (List Conn)) [
          | yes p ↦ some xs
          | no p ↦ elim (without Conn_discrete u xs) [ none ↦ none | some rest ↦ some (x ∷ rest) ]
        ]
            ≡ some rest)
    go (yes p) = (xs, refl)
    go (no p) = absurd (p (sym e))
without-Elem u (x ∷ xs) (inr there) = elim (Conn_discrete x u) [
  | yes p ↦ (xs, ground arith)
  | no p ↦ let (rest, found) = without-Elem u xs there in (x ∷ rest, ground arith)
]

removed_cons-InRange :
    (lb : LoadBalancer Conn) (x : Conn) (rest : List Conn)
    → InRange (removed Conn_discrete lb (x ∷ rest)).0
removed_cons-InRange lb x rest =
    let at : lb.next_index % length (x ∷ rest) < length (x ∷ rest) =
      mod-lt lb.next_index (omega arith) in
    ground (arith, at)

module _ (m : Manager) (s : State) (u : Conn) (h : Agrees m s) where
  removed_count :
      (e : GoString)
      → 0 < length (held m u.endpoint_id)
      → listeners_or_zero (
          lookup e
            (remove_listener h.local u.endpoint_id
              (listeners_or_zero (lookup u.endpoint_id h.local.endpoints))).endpoints)
        ≡ ite
            (str_dec u.endpoint_id e)
            (length (held m u.endpoint_id) - 1)
            (listeners_or_zero (lookup e h.local.endpoints))
  removed_count e some_held = ground (
    arith,
    counted_local m s u.endpoint_id h,
    h.fits u.endpoint_id,
    lookup-delete u.endpoint_id e h.local.endpoints,
    listeners_put m s u.endpoint_id h
        (sub_int64 (listeners_or_zero (lookup u.endpoint_id h.local.endpoints)) 1) e,
  )

  module _ (lb : LoadBalancer Conn) (found : lookup u.endpoint_id m.local_upstreams ≡ some lb) where
    removed_holds :
        (rest : List Conn)
        → without Conn_discrete u lb.upstreams ≡ some rest
        → (e : GoString)
        → held
            (record m {
              local_upstreams =
                  after_remove m.local_upstreams u.endpoint_id (remove Conn_discrete lb u);
            })
            e
          ≡ ite (str_dec u.endpoint_id e) rest (held m e)
    unfolding remove
    removed_holds [] gone e = ground (arith, gone, lookup-delete u.endpoint_id e m.local_upstreams)
    removed_holds (x ∷ rest) gone e = ground (
      arith,
      gone,
      lookup-insert u.endpoint_id e (removed Conn_discrete lb (x ∷ rest)).0 m.local_upstreams,
    )

    removed-InRange :
        (rest : List Conn)
        → without Conn_discrete u lb.upstreams ≡ some rest
        → (e : GoString) (lb' : LoadBalancer Conn)
        → lookup e (after_remove m.local_upstreams u.endpoint_id (remove Conn_discrete lb u))
          ≡ some lb'
        → InRange lb'
    unfolding remove
    removed-InRange [] gone e lb' at =
        ground (arith, gone, at, h.in_range e lb', lookup-delete u.endpoint_id e m.local_upstreams)
    removed-InRange (x ∷ rest) gone e lb' at =
        InRange-put m s u h (removed Conn_discrete lb (x ∷ rest)).0 (removed_cons-InRange lb x rest)
          e lb' (ground (arith, gone, at))

  removed_run :
      0 < length (held m u.endpoint_id)
      → remove_local_endpoint s u.endpoint_id
        ≡ some (
          put_node s s.local_id (
              remove_listener h.local u.endpoint_id
                (listeners_or_zero (lookup u.endpoint_id h.local.endpoints))),
          call_local s.local_endpoint_subscribers u.endpoint_id,
        )
  unfolding remove_local_endpoint
  removed_run some_held = rw h.known (ground (arith, counted_local m s u.endpoint_id h, some_held))

  -- If the manager's connections agree with the cluster state's counts, RemoveConn of a
  -- connection that is held does not panic, takes its first occurrence out of its endpoint's, and
  -- they agree afterwards.
  pub remove_conn-Agrees :
      Elem u (held m u.endpoint_id)
      → (m' : Manager) × (s' : State) × (calls : List ManagerCall) × (rest : List Conn)
        × (remove_conn m s u ≡ some (m', s', calls))
        × Agrees m' s'
        × (without Conn_discrete u (held m u.endpoint_id) ≡ some rest)
        × (held m' u.endpoint_id ≡ rest)
  unfolding remove_conn
  remove_conn-Agrees there = elim (Option-cases (lookup u.endpoint_id m.local_upstreams)) [
    | inl missing ↦ absurd (ground (arith, there, missing))
    | inr (lb, found) ↦
        let k = u.endpoint_id in
        let same : held m k ≡ lb.upstreams = ground (arith, found) in
        let (rest, gone) = without-Elem u (held m k) there in
        let gone' = subst (λ us. without Conn_discrete u us ≡ some rest) same gone in
        let size = length-without Conn_discrete u (held m k) rest gone in
        let left = remove Conn_discrete lb u in
        let m' : Manager = record m { local_upstreams = after_remove m.local_upstreams k left } in
        let n = remove_listener h.local k (listeners_or_zero (lookup k h.local.endpoints)) in
        let holds = removed_holds lb found rest gone' in
        (
          m',
          put_node s s.local_id n,
          unregistered left.1
              ++ as_calls (call_local s.local_endpoint_subscribers k)
              ++ connected_dec ∷ [],
          rest,
          rw (remove_conn, found, removed_run (omega (arith, size))) refl,
          updated-Agrees m s k h m' (put_node s s.local_id n) n rest (put_known m s k h n)
              (λ e. ground (arith, removed_count e (omega (arith, size)), size)) holds
              (removed-InRange lb found rest gone') (omega (arith, size, h.fits k)),
          gone,
          holds k ∙ ground arith,
        )
  ]
