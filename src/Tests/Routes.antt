-- ===== src/Tests/Routes.antt =====
-- The cluster state and the manager of a server with one endpoint.
use pico.Prelude.{
  Option, List, true, ◌+◌, ◌%◌, ◌≡◌, ◌⊎◌, refl, inl, codes, lookup, values, List, [], ◌∷◌, ◌++◌,
  some, none, arith, Elem, All, true, false, str_dec, length,
}
use pico.Cluster.Types.{Node, active}
use pico.Cluster.State.{State, lookup_endpoint}
use pico.Cluster.Lookup.{CanServe, lookup_endpoint_lem}
use pico.Upstream.LoadBalancer.{LoadBalancer, remove, without}
use pico.Upstream.Manager.{
  Conn, Conn_discrete, Manager, ManagerCall, new_manager, add_conn, remove_conn,
}
use pico.Upstream.RoundRobin.{InRange, next_many, in_turn, next_many-in_turn, remove-InRange}
use pico.Upstream.Agreement.{Agrees, held, add_conn-Agrees}
use pico.Upstream.Manager.{Upstream, select}
use pico.Upstream.Routing.{IsRoute, select-IsRoute, published_count, publish-held}
use pico.Syncer.{publish}
use pico.Upstream.Leaving.{remove_conn-Agrees}

abbrev here : Node
here = record {
  id = codes "a";
  status = active;
  proxy_addr = codes "a:8000";
  admin_addr = codes "a:8002";
  endpoints = [];
}

abbrev pub there : Node
there = record here { id = codes "b"; endpoints = (codes "e", 1) ∷ [] }

abbrev pub two_nodes : State
two_nodes = record {
  local_id = codes "a";
  nodes = (codes "a", here) ∷ (codes "b", there) ∷ [];
  local_endpoint_subscribers = [];
  remote_endpoint_subscribers = [];
}

lookup_endpoint_lem_example :
    ((lookup_endpoint two_nodes (codes "e") ≡ none)
      × All (λ n. ¬ CanServe (codes "a") (codes "e") n) (values two_nodes.nodes))
    ⊎ ((n : Node) × (lookup_endpoint two_nodes (codes "e") ≡ some n)
        × Elem n (values two_nodes.nodes)
        × CanServe (codes "a") (codes "e") n)
lookup_endpoint_lem_example = lookup_endpoint_lem two_nodes (codes "e")

abbrev pub first : Conn
first = record { endpoint_id = codes "e"; session = 1 }

abbrev second : Conn
second = record { endpoint_id = codes "e"; session = 2 }

abbrev balancer : LoadBalancer Conn
balancer = record { upstreams = first ∷ second ∷ []; next_index = 1 }

next_many-in_turn_example :
    (lb' : LoadBalancer Conn) × (next_many 3 balancer ≡ some (in_turn balancer.upstreams 1 3, lb'))
    × (lb'.upstreams ≡ balancer.upstreams)
    × (lb'.next_index ≡ (1 + 3) % 2)
next_many-in_turn_example = next_many-in_turn 3 balancer (omega arith)

remove-InRange_example :
    (((remove Conn_discrete balancer second).1 ≡ true)
      × (length (remove Conn_discrete balancer second).0.upstreams ≡ 0))
    ⊎ (((remove Conn_discrete balancer second).1 ≡ false)
        × InRange (remove Conn_discrete balancer second).0)
remove-InRange_example = remove-InRange Conn_discrete balancer second (omega arith)

pub start-Agrees : Agrees new_manager two_nodes
unfolding lookup str_dec
start-Agrees = record {
  local = here;
  known = refl;
  counts = λ e. refl;
  in_range = λ e lb h. cc;
  fits = λ e. omega arith;
}

add_conn-Agrees_example :
    (m' : Manager) × (s' : State) × (calls : List ManagerCall) × (add_conn new_manager two_nodes
        first
      ≡ some (m', s', calls))
    × Agrees m' s'
    × (held m' (codes "e") ≡ held new_manager (codes "e") ++ first ∷ [])
unfolding lookup str_dec
add_conn-Agrees_example = add_conn-Agrees new_manager two_nodes first start-Agrees (omega arith)

abbrev pub joined : Manager
joined = record new_manager {
  local_upstreams = (codes "e", record balancer { next_index = 0; upstreams = first ∷ [] }) ∷ [];
}

abbrev pub counting : State
counting = record two_nodes {
  nodes = (codes "a", record here { endpoints = (codes "e", 1) ∷ [] }) ∷ (codes "b", there) ∷ [];
}

pub joined-Agrees : Agrees joined counting
unfolding lookup str_dec
joined-Agrees = record {
  local = record here { endpoints = (codes "e", 1) ∷ [] };
  known = refl;
  counts = λ e. ground arith;
  in_range = λ e lb h. ground arith;
  fits = λ e. ground arith;
}

remove_conn-Agrees_example :
    (m' : Manager) × (s' : State) × (calls : List ManagerCall) × (rest : List Conn) × (remove_conn
        joined counting first
      ≡ some (m', s', calls))
    × Agrees m' s'
    × (without Conn_discrete first (held joined (codes "e")) ≡ some rest)
    × (held m' (codes "e") ≡ rest)
unfolding lookup str_dec
remove_conn-Agrees_example = remove_conn-Agrees joined counting first joined-Agrees (inl refl)

select-IsRoute_example :
    (m' : Manager) × (route : Option (Option Upstream)) × (calls : List ManagerCall) × (select
        joined counting
        (codes "e")
        true
      ≡ some (m', route, calls))
    × IsRoute joined counting (codes "e") true route
select-IsRoute_example = select-IsRoute joined counting joined-Agrees (codes "e") true

publish-held_example :
    publish counting (codes "e") ≡ some (published_count (held joined (codes "e")) (codes "e"))
publish-held_example = publish-held joined counting joined-Agrees (codes "e")
