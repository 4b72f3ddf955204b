-- ===== src/Upstream/Sessions.antt =====
-- server/upstream/server.go: the sessions of all upstreams, in any order of connects and
-- disconnects.
use pico.Prelude.{
  ℕ, ◌+◌, ◌≤◌, ◌<◌, ◌^◌, ◌≡◌, ◌≢◌, refl, ◌∙◌, ap, sym, inl, inr, GoString, true, List, [], ◌∷◌,
  ◌++◌, Option, none, some, str_dec, length, arith, Elem, Elem-either, Option-cases, subst,
}
use pico.Auth.{EndpointToken, Verified, verified, endpoint_permitted}
use pico.Cluster.State.{State}
use pico.Upstream.LoadBalancer.{without}
use pico.Upstream.Manager.{Conn, Conn_discrete, Manager, ManagerCall, remove_conn}
use pico.Upstream.Agreement.{Agrees, held}
use pico.Upstream.Server.{connect, connected, passed, parse_token}
pub mod Lists

-- The connections of one endpoint, in their order.
unfoldable pub of_endpoint : GoString → List Conn → List Conn
of_endpoint e [] = []
of_endpoint e (c ∷ cs) = elim (str_dec c.endpoint_id e) [
  | yes p ↦ c ∷ of_endpoint e cs
  | no ne ↦ of_endpoint e cs
]

-- The first of a connection is taken out.
unfoldable pub drop_conn : Conn → List Conn → List Conn
drop_conn u [] = []
drop_conn u (c ∷ cs) = elim (Conn_discrete c u) [ yes p ↦ cs | no ne ↦ c ∷ drop_conn u cs ]

-- A session: the connection, and the Authorization header that the upstream showed for it.
pub record Session : Type 0 where
  pub conn : Conn
  pub authorization : GoString

abbrev pub conns : List Session → List Conn
conns [] = []
conns (x ∷ xs) = x.conn ∷ conns xs

-- The first session of a connection is taken out.
unfoldable pub drop_session : Conn → List Session → List Session
drop_session u [] = []
drop_session u (x ∷ xs) = elim (Conn_discrete x.conn u) [
  | yes p ↦ xs
  | no ne ↦ x ∷ drop_session u xs
]

-- The manager with the cluster state, and an account of the open sessions, which neither reads.
pub record Sessions : Type 0 where
  pub manager : Manager
  pub state : State
  pub open_sessions : List Session

pub data Step (verifier : Option (GoString → Verified)) (y : Sessions) : Sessions → Type 0 where
  -- An upstream connects, as a new connection: it passes the checks and is upgraded.
  joins :
      (x : Session) (m : Manager) (s : State) (calls : List ManagerCall) (t : ℕ)
      → length (conns y.open_sessions) + 1 < 2 ^ 63
      → ¬ Elem x.conn (conns y.open_sessions)
      → connect verifier x.authorization true y.manager y.state x.conn
        ≡ some (connected m s calls t)
      → Step verifier y
          (record { manager = m; state = s; open_sessions = y.open_sessions ++ x ∷ [] })
  -- A session ends.
  leaves :
      (u : Conn) (m : Manager) (s : State) (calls : List ManagerCall)
      → Elem u (conns y.open_sessions)
      → remove_conn y.manager y.state u ≡ some (m, s, calls)
      → Step verifier y
          (record { manager = m; state = s; open_sessions = drop_session u y.open_sessions })

-- The header has a token that the verifier takes and that permits the endpoint, if there is a
-- verifier.
abbrev pub IsAllowed : Option (GoString → Verified) → GoString → Conn → Type 0
IsAllowed none authorization u = Unit
IsAllowed (some verify) authorization u =
    (token : GoString) × (t : EndpointToken) × (parse_token authorization ≡ passed token)
    × (verify token ≡ verified t)
    × (endpoint_permitted t u.endpoint_id ≡ true)

abbrev pub AllApart : List Conn → Type 0
AllApart [] = Unit
AllApart (c ∷ cs) = (¬ Elem c cs) × AllApart cs

-- The manager holds the open sessions of each endpoint, in the order in which they connected, the
-- cluster state counts them, and each showed a token that allows it.
pub record Holds (verifier : Option (GoString → Verified)) (y : Sessions) : Type 0 where
  pub agrees : Agrees y.manager y.state
  pub held_open : (e : GoString) → held y.manager e ≡ of_endpoint e (conns y.open_sessions)
  pub allowed : (x : Session) → Elem x y.open_sessions → IsAllowed verifier x.authorization x.conn
  pub apart : AllApart (conns y.open_sessions)
