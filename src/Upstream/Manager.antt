-- ===== src/Upstream/Manager.antt =====
-- server/upstream/manager.go and upstream.go: LoadBalancedManager. The cluster state that the
-- manager points to is an argument of its methods.
use pico.Prelude.{
  ℕ, ◌+◌, ◌%◌, ◌^◌, GoString, GoMap, lookup, insert, delete, Bool, true, false, List, [], ◌∷◌, ◌++◌,
  Option, none, some, length, str_dec, ℕ_discrete, if◌then◌else◌, ◌>>=◌,
}
use pico.Cluster.Types.{Node}
use pico.Cluster.State.{State, Call, lookup_endpoint, add_local_endpoint, remove_local_endpoint}
use pico.Upstream.LoadBalancer.{LoadBalancer, new_load_balancer, add, next, remove}

-- `ConnUpstream`: a connection of an endpoint. Its session, a pointer, is known by a number.
pub record Conn : Type 0 where
  pub endpoint_id : GoString
  pub session : ℕ

unfoldable pub Conn_discrete : Discrete Conn
unfolding ℕ_discrete str_dec
Conn_discrete a b = elim (str_dec a.endpoint_id b.endpoint_id) [
  | yes p ↦ elim (ℕ_discrete a.session b.session) [
    | yes q ↦ yes λ i. record { endpoint_id = p i; session = q i }
    | no q ↦ no λ e. q (cc)
  ]
  | no p ↦ no λ e. p (cc)
]

-- An upstream that a request can go to: a local connection, or another node (`NodeUpstream`).
pub data Upstream : Type 0 where
  conn : Conn → Upstream
  node : GoString → Node → Upstream

-- `Forward`
abbrev pub forward : Upstream → Bool
forward (conn c) = false
forward (node endpoint_id n) = true

-- `EndpointID`
abbrev pub endpoint_of : Upstream → GoString
endpoint_of (conn c) = c.endpoint_id
endpoint_of (node endpoint_id n) = endpoint_id

-- `Usage`: two atomic uint64 counters.
pub record Usage : Type 0 where
  pub requests : ℕ
  pub upstreams : ℕ

-- The calls of a method: of the cluster state, and of the manager's own metrics.
pub data ManagerCall : Type 0 where
  cluster : Call → ManagerCall
  registered_inc registered_dec connected_inc connected_dec requests_inc : ManagerCall
  remote_requests_inc : GoString → ManagerCall

pub record Manager : Type 0 where
  pub local_upstreams : GoMap (LoadBalancer Conn)
  pub usage : Usage

-- `NewLoadBalancedManager`
abbrev pub new_manager : Manager
new_manager = record { local_upstreams = []; usage = record { requests = 0; upstreams = 0 } }

-- A counter's `Inc`.
abbrev pub counter_inc : ℕ → ℕ
counter_inc n = (n + 1) % 2 ^ 64

-- The balancer's `Next`, at a local endpoint.
select_local :
    Manager
    → GoString
    → LoadBalancer Conn
    → Option (Manager × Option (Option Upstream) × List ManagerCall)
select_local m endpoint_id lb = do
  (u, lb') ← next lb
  some (
    record m { local_upstreams = insert endpoint_id lb' m.local_upstreams },
    some (elim u [ none ↦ none | some c ↦ some (conn c) ]),
    requests_inc ∷ [],
  )

-- The rest of `Select`, for an endpoint with no local upstream.
select_remote : Manager → State → GoString → Manager × Option (Option Upstream) × List ManagerCall
select_remote m s endpoint_id = elim (lookup_endpoint s endpoint_id) [
  | none ↦ (m, none, [])
  | some n ↦ (
    record m { usage = record m.usage { requests = counter_inc m.usage.requests } },
    some (some (node endpoint_id n)),
    remote_requests_inc n.id ∷ [],
  )
]

-- `Select`: `none` for no upstream; `some none` is the nil upstream of an empty balancer.
unfoldable pub select :
    Manager
    → State
    → GoString
    → Bool
    → Option (Manager × Option (Option Upstream) × List ManagerCall)
unfolding select_local select_remote
select m s endpoint_id allow_remote = elim (lookup endpoint_id m.local_upstreams) [
  | some lb ↦ select_local m endpoint_id lb
  | none ↦ if allow_remote then some (select_remote m s endpoint_id) else some (m, none, [])
]

pub as_calls : List Call → List ManagerCall
as_calls [] = []
as_calls (c ∷ cs) = cluster c ∷ as_calls cs

-- The balancer of an endpoint, or a new one.
abbrev pub balancer_or_new : Option (LoadBalancer Conn) → LoadBalancer Conn
balancer_or_new none = new_load_balancer
balancer_or_new (some lb) = lb

abbrev pub registered : Option (LoadBalancer Conn) → List ManagerCall
registered none = registered_inc ∷ []
registered (some lb) = []

-- `AddConn`
unfoldable pub add_conn : Manager → State → Conn → Option (Manager × State × List ManagerCall)
unfolding as_calls
add_conn m s u =
    let found = lookup u.endpoint_id m.local_upstreams in
    add_local_endpoint s u.endpoint_id >>= λ done. some (
      record {
        local_upstreams = insert u.endpoint_id (add (balancer_or_new found) u) m.local_upstreams;
        usage = record m.usage { upstreams = counter_inc m.usage.upstreams };
      },
      done.0,
      registered found ++ as_calls done.1 ++ connected_inc ∷ [],
    )

-- The map after `lb.Remove(u)`: the pointer is written through, and an empty balancer is dropped.
abbrev pub after_remove :
    GoMap (LoadBalancer Conn) → GoString → LoadBalancer Conn × Bool → GoMap (LoadBalancer Conn)
after_remove m endpoint_id (lb, is_empty) =
    if is_empty then delete endpoint_id m else insert endpoint_id lb m

abbrev pub unregistered : Bool → List ManagerCall
unregistered is_empty = if is_empty then registered_dec ∷ [] else []

-- `RemoveConn`
unfoldable pub remove_conn : Manager → State → Conn → Option (Manager × State × List ManagerCall)
unfolding as_calls
remove_conn m s u = elim (lookup u.endpoint_id m.local_upstreams) [
  | none ↦ some (m, s, [])
  | some lb ↦ remove_local_endpoint s u.endpoint_id >>= λ done.
      let left = remove Conn_discrete lb u in
      some (
        record m { local_upstreams = after_remove m.local_upstreams u.endpoint_id left },
        done.0,
        unregistered left.1 ++ as_calls done.1 ++ connected_dec ∷ [],
      )
]

endpoint_counts : GoMap (LoadBalancer Conn) → GoMap ℕ
endpoint_counts [] = []
endpoint_counts ((k, lb) ∷ m) = (k, length lb.upstreams) ∷ endpoint_counts m

-- `Endpoints`
unfoldable pub endpoints : Manager → GoMap ℕ
unfolding endpoint_counts
endpoints m = endpoint_counts m.local_upstreams
