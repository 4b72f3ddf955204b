-- ===== src/Upstream/Connected.antt =====
-- server/upstream/server.go with manager.go: histories of sessions.
use pico.Prelude.{
  ℕ, ◌+◌, ◌<◌, ◌^◌, ◌≡◌, ◌≢◌, refl, ◌∙◌, ap, sym, inl, inr, GoString, true, List, [], ◌∷◌, ◌++◌,
  Option, none, some, str_dec, length, arith, Elem, Elem-either, append-nil, codes, Option-cases,
  Bool-cases, lookup, lookup-insert, lookup-delete, subst, ◌⊎◌,
}
use pico.Auth.{
  EndpointToken, Verified, verified, rejected, VerifyError, invalid_token, expired_token,
  other_error, endpoint_permitted,
}
use pico.Cluster.State.{State, add_local_endpoint, remove_local_endpoint}
use pico.Upstream.LoadBalancer.{without, add, remove}
use pico.Upstream.Manager.{
  Conn, Conn_discrete, Manager, ManagerCall, add_conn, remove_conn, balancer_or_new, new_manager,
}
use pico.Upstream.Agreement.{Agrees, held, add_conn-Agrees}
use pico.Upstream.Leaving.{remove_conn-Agrees}
use pico.Upstream.Server.{
  connect, connected, verify_token, passed, token_of, replied, parse_token, Checked, Reply,
}
use pico.Upstream.Sessions.{
  of_endpoint, drop_conn, Session, conns, drop_session, Sessions, Step, joins, leaves, IsAllowed,
  AllApart, Holds,
}
use pico.Upstream.Sessions.Lists.{
  conns-append, conns-drop_session, Elem-drop_session, AllApart-append, AllApart-drop,
  gone-drop_conn, kept-drop_conn, of_endpoint-Elem, of_endpoint-append, length-of_endpoint,
  Elem-of_endpoint, of_endpoint-drop_other, of_endpoint-drop, of-here, of-other,
}

-- The connections of other endpoints stay.
held-add_other :
    (m : Manager) (s : State) (u : Conn) (e : GoString) {m' : Manager} {s' : State}
    {calls : List ManagerCall}
    → u.endpoint_id ≢ e
    → add_conn m s u ≡ some (m', s', calls)
    → held m' e ≡ held m e
unfolding add_conn
held-add_other m s u e {m'} ne done = elim (Option-cases (add_local_endpoint s u.endpoint_id)) [
  | inl panics ↦ absurd (ground (arith, done, panics))
  | inr (x, added) ↦
      let lb = add (balancer_or_new (lookup u.endpoint_id m.local_upstreams)) u in
      ground (arith, done, added, ne, lookup-insert u.endpoint_id e lb m.local_upstreams)
]

held-remove_other :
    (m : Manager) (s : State) (u : Conn) (e : GoString) {m' : Manager} {s' : State}
    {calls : List ManagerCall}
    → u.endpoint_id ≢ e
    → remove_conn m s u ≡ some (m', s', calls)
    → held m' e ≡ held m e
unfolding remove_conn
held-remove_other m s u e {m'} ne done =
    elim (Option-cases (lookup u.endpoint_id m.local_upstreams)) [
      | inl missing ↦ ground (arith, done, missing)
      | inr (lb, found) ↦ elim (Option-cases (remove_local_endpoint s u.endpoint_id)) [
        | inl panics ↦ absurd (ground (arith, done, found, panics))
        | inr (x, removed) ↦
            let left = remove Conn_discrete lb u in
            ground (
              arith,
              done,
              found,
              removed,
              ne,
              lookup-insert u.endpoint_id e left.0 m.local_upstreams,
              lookup-delete u.endpoint_id e m.local_upstreams,
            )
      ]
    ]

Checked-cases :
    {A : Type 0} (x : Checked A) → ((a : A) × (x ≡ passed a)) ⊎ ((r : Reply) × (x ≡ replied r))
Checked-cases (passed a) = inl (a, refl)
Checked-cases (replied r) = inr (r, refl)

Verified-cases :
    (v : Verified)
    → ((t : EndpointToken) × (v ≡ verified t)) ⊎ ((e : VerifyError) × (v ≡ rejected e))
Verified-cases (verified t) = inl (t, refl)
Verified-cases (rejected e) = inr (e, refl)

-- An error of the verifier is no token.
rejected-replied :
    (verify : GoString → Verified) (authorization token : GoString) (e : VerifyError)
    → parse_token authorization ≡ passed token
    → verify token ≡ rejected e
    → (r : Reply) × (verify_token verify authorization ≡ replied r)
unfolding verify_token
rejected-replied verify authorization token invalid_token parsed bad =
    (record { status = 401; message = codes "invalid token" }, cc (parsed, bad))
rejected-replied verify authorization token expired_token parsed bad =
    (record { status = 401; message = codes "expired token" }, cc (parsed, bad))
rejected-replied verify authorization token other_error parsed bad =
    (record { status = 500; message = [] }, cc (parsed, bad))

verify_token-passed :
    (verify : GoString → Verified) (authorization : GoString) {t : EndpointToken}
    → verify_token verify authorization ≡ passed t
    → (token : GoString) × (parse_token authorization ≡ passed token) × (verify token ≡ verified t)
unfolding verify_token
verify_token-passed verify authorization {t} done =
    elim (Checked-cases (parse_token authorization)) [
      | inr (r, bad) ↦ absurd (ground (arith, done, bad))
      | inl (token, parsed) ↦ elim (Verified-cases (verify token)) [
        | inl (t', good) ↦ (token, parsed, good ∙ ground (arith, done, parsed, good))
        | inr (e, bad) ↦
            let (r, stopped) = rejected-replied verify authorization token e parsed bad in
            absurd (ground (arith, done, stopped))
      ]
    ]

abbrev some_token : Checked EndpointToken → Checked (Option EndpointToken)
some_token (passed t) = passed (some t)
some_token (replied r) = replied r

token_of-some :
    (verify : GoString → Verified) (authorization : GoString)
    → token_of (some verify) authorization ≡ some_token (verify_token verify authorization)
unfolding token_of
token_of-some verify authorization = elim (Checked-cases (verify_token verify authorization)) [
  | inl (t, good) ↦ rw (token_of, good) refl
  | inr (r, bad) ↦ rw (token_of, bad) refl
]

-- Only an allowed connection is added.
connect-IsAllowed :
    (verifier : Option (GoString → Verified)) (authorization : GoString) (m : Manager) (s : State)
    (u : Conn) {m' : Manager} {s' : State} {calls : List ManagerCall} {t : ℕ}
    → connect verifier authorization true m s u ≡ some (connected m' s' calls t)
    → IsAllowed verifier authorization u × (add_conn m s u ≡ some (m', s', calls))
unfolding connect
connect-IsAllowed none authorization m s u done = elim (Option-cases (add_conn m s u)) [
  | inl panics ↦ absurd (ground (arith, done, panics))
  | inr (x, added) ↦ (tt, ground (arith, done, added))
]
connect-IsAllowed (some verify) authorization m s u done =
    elim (Checked-cases (verify_token verify authorization)) [
      | inr (r, bad) ↦ absurd (ground (arith, done, token_of-some verify authorization, bad))
      | inl (t, good) ↦
          let (token, parsed, is_good) = verify_token-passed verify authorization good in
          elim (Bool-cases (endpoint_permitted t u.endpoint_id)) [
            | inr forbidden ↦
                absurd (ground (arith, done, token_of-some verify authorization, good, forbidden))
            | inl permitted ↦ elim (Option-cases (add_conn m s u)) [
              | inl panics ↦ absurd (
                  ground (arith, done, token_of-some verify authorization, good, permitted, panics))
              | inr (x, added) ↦ (
                (token, t, parsed, is_good, permitted),
                ground (arith, done, token_of-some verify authorization, good, permitted, added),
              )
            ]
          ]
    ]

module _ (verifier : Option (GoString → Verified)) where
  joins-Holds :
      (y : Sessions) (x : Session) {m : Manager} {s : State} {calls : List ManagerCall} {t : ℕ}
      → Holds verifier y
      → length (conns y.open_sessions) + 1 < 2 ^ 63
      → ¬ Elem x.conn (conns y.open_sessions)
      → connect verifier x.authorization true y.manager y.state x.conn
        ≡ some (connected m s calls t)
      → Holds verifier
          (record { manager = m; state = s; open_sessions = y.open_sessions ++ x ∷ [] })
  unfolding of_endpoint
  joins-Holds y x {m} {s} {calls} h room new done =
      let u = x.conn in
      let cs = conns y.open_sessions in
      let (is_allowed, added) =
        connect-IsAllowed verifier x.authorization y.manager y.state u done in
      let k = u.endpoint_id in
      let fits : length (held y.manager k) + 1 < 2 ^ 63 =
        rw (h.held_open k) (omega (arith, room, length-of_endpoint k cs)) in
      let (m', s', calls', added', agrees, holds) =
        add_conn-Agrees y.manager y.state u h.agrees fits in
      let same_m : m ≡ m' = ground (arith, added, added') in
      let same_s : s ≡ s' = ground (arith, added, added') in
      let here : held m k ≡ of_endpoint k (cs ++ u ∷ []) =
        ap (λ x. held x k) same_m
        ∙ holds
        ∙ ap (λ ds. ds ++ u ∷ []) (h.held_open k)
        ∙ sym (
            of_endpoint-append k cs (u ∷ [])
            ∙ ap (λ ds. of_endpoint k cs ++ ds) (of-here k u [] refl)) in
      let there : (e : GoString) → k ≢ e → held m e ≡ of_endpoint e (cs ++ u ∷ []) = λ e ne.
        held-add_other y.manager y.state u e ne added
        ∙ h.held_open e
        ∙ sym (
            of_endpoint-append e cs (u ∷ [])
            ∙ ap (λ ds. of_endpoint e cs ++ ds) (of-other e u [] ne)
            ∙ append-nil (of_endpoint e cs)) in
      let all = sym (conns-append y.open_sessions x) in
      record {
        agrees = rw (same_m, same_s) agrees;
        held_open = λ e.
            subst (λ ds. held m e ≡ of_endpoint e ds) all
              (elim (str_dec k e) [
                | yes p ↦ subst (λ j. held m j ≡ of_endpoint j (cs ++ u ∷ [])) p here
                | no ne ↦ there e ne
              ]);
        allowed = λ z elem. elim (Elem-either z y.open_sessions (x ∷ []) elem) [
          | inl old ↦ h.allowed z old
          | inr (inl p) ↦
              subst (λ (w : Session). IsAllowed verifier w.authorization w.conn) (sym p) is_allowed
          | inr (inr none_left) ↦ absurd none_left
        ];
        apart = subst AllApart all (AllApart-append cs u h.apart new);
      }

  leaves-Holds :
      (y : Sessions) (u : Conn) {m : Manager} {s : State} {calls : List ManagerCall}
      → Holds verifier y
      → Elem u (conns y.open_sessions)
      → remove_conn y.manager y.state u ≡ some (m, s, calls)
      → Holds verifier
          (record { manager = m; state = s; open_sessions = drop_session u y.open_sessions })
  leaves-Holds y u {m} {s} {calls} h elem done =
      let k = u.endpoint_id in
      let cs = conns y.open_sessions in
      let there : Elem u (held y.manager k) = rw (h.held_open k) (Elem-of_endpoint u cs elem) in
      let (m', s', calls', rest, done', agrees, gone, holds) =
        remove_conn-Agrees y.manager y.state u h.agrees there in
      let same_m : m ≡ m' = ground (arith, done, done') in
      let same_s : s ≡ s' = ground (arith, done, done') in
      let gone' = subst (λ ds. without Conn_discrete u ds ≡ some rest) (h.held_open k) gone in
      let here : held m k ≡ of_endpoint k (drop_conn u cs) =
        ap (λ x. held x k) same_m ∙ holds ∙ sym (of_endpoint-drop u cs gone') in
      let left = sym (conns-drop_session u y.open_sessions) in
      record {
        agrees = rw (same_m, same_s) agrees;
        held_open = λ e.
            subst (λ ds. held m e ≡ of_endpoint e ds) left
              (elim (str_dec k e) [
                | yes p ↦ subst (λ j. held m j ≡ of_endpoint j (drop_conn u cs)) p here
                | no ne ↦
                    held-remove_other y.manager y.state u e ne done
                    ∙ h.held_open e
                    ∙ sym (of_endpoint-drop_other e u cs ne)
              ]);
        allowed = λ z m. h.allowed z (Elem-drop_session u z y.open_sessions m);
        apart = subst AllApart left (AllApart-drop u cs h.apart);
      }

  pub data Reach (y : Sessions) : Sessions → Type 0 where
    here : Reach y y
    next : {z w : Sessions} → Reach y z → Step verifier z w → Reach y w

  Step-Holds : {y z : Sessions} → Holds verifier y → Step verifier y z → Holds verifier z
  Step-Holds {y} h (joins x m s calls t room new done) = joins-Holds y x h room new done
  Step-Holds {y} h (leaves u m s calls elem done) = leaves-Holds y u h elem done

  Reach-Holds : {y z : Sessions} → Holds verifier y → Reach y z → Holds verifier z
  Reach-Holds h here = h
  Reach-Holds h (next r step) = Step-Holds (Reach-Holds h r) step

  -- What the end of an open session leaves.
  leaves-some :
      (z : Sessions) (u : Conn)
      → Holds verifier z
      → Elem u (conns z.open_sessions)
      → (m : Manager) × (s : State) × (calls : List ManagerCall) × (remove_conn z.manager z.state u
          ≡ some (m, s, calls))
        × (¬ Elem u (held m u.endpoint_id))
        × ((c : Conn) → c ≢ u → Elem c (conns z.open_sessions) → Elem c (held m c.endpoint_id))
  leaves-some z u h elem =
      let there : Elem u (held z.manager u.endpoint_id) =
        rw (h.held_open u.endpoint_id) (Elem-of_endpoint u (conns z.open_sessions) elem) in
      let (m, s, calls, rest, done, agrees, gone, holds) =
        remove_conn-Agrees z.manager z.state u h.agrees there in
      let h' = leaves-Holds z u h elem done in
      let left = conns-drop_session u z.open_sessions in
      (
        m,
        s,
        calls,
        done,
        (λ at. gone-drop_conn u (conns z.open_sessions) h.apart (
            subst (λ ds. Elem u ds) left
              (of_endpoint-Elem u.endpoint_id u (conns (drop_session u z.open_sessions))
                (subst (λ ds. Elem u ds) (h'.held_open u.endpoint_id) at)))),
        λ c other at.
            subst (λ ds. Elem c ds) (sym (h'.held_open c.endpoint_id))
              (Elem-of_endpoint c (conns (drop_session u z.open_sessions)) (
                subst (λ ds. Elem c ds) (sym left)
                  (kept-drop_conn u c (conns z.open_sessions) other at))),
      )

  -- A server that no upstream has connected to.
  abbrev pub fresh : State → Sessions
  fresh s = record { manager = new_manager; state = s; open_sessions = [] }

  fresh-Holds : (s : State) → Agrees new_manager s → Holds verifier (fresh s)
  unfolding of_endpoint lookup
  fresh-Holds s h = record {
    agrees = h;
    held_open = λ e. refl;
    allowed = λ x elem. absurd elem;
    apart = tt;
  }

  -- In every history of a server, from one that no upstream has connected to, of connects of new
  -- connections that upstreamRoute lets through and of ends of sessions, in any order and with
  -- room for their number: the manager holds exactly the open sessions of each endpoint, in the
  -- order in which they connected, the cluster state counts them, and the Authorization header
  -- that each open session showed has a token that the verifier takes and that permits its
  -- endpoint, if there is a verifier.
  pub sessions-Holds :
      (s : State) {z : Sessions} → Agrees new_manager s → Reach (fresh s) z → Holds verifier z
  sessions-Holds s h r = Reach-Holds (fresh-Holds s h) r

  -- In every such history, for each open session: RemoveConn does not panic, the manager then no
  -- longer holds its connection, and it still holds those of all other open sessions.
  pub sessions-end :
      (s : State) {z : Sessions} (u : Conn)
      → Agrees new_manager s
      → Reach (fresh s) z
      → Elem u (conns z.open_sessions)
      → (m : Manager) × (s' : State) × (calls : List ManagerCall) × (remove_conn z.manager z.state u
          ≡ some (m, s', calls))
        × (¬ Elem u (held m u.endpoint_id))
        × ((c : Conn) → c ≢ u → Elem c (conns z.open_sessions) → Elem c (held m c.endpoint_id))
  sessions-end s {z} u h r elem = leaves-some z u (Reach-Holds (fresh-Holds s h) r) elem
