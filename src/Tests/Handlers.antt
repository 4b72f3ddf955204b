-- ===== src/Tests/Handlers.antt =====
-- The syncer of a server that hears of another.
use pico.Prelude.{◌≡◌, ◌≢◌, refl, inr, codes, lookup, [], ◌∷◌, some, none, arith, str_dec}
use pico.Strconv.{itoa}
use pico.Cluster.Types.{Node, active}
use pico.Cluster.State.{State, lookup_endpoint}
use pico.Gossip.Types.{on_upsert_key}
use pico.Syncer.{
  Syncer, new_syncer, empty_node, endpoint_key, admin_addr_key, handle, handle_upsert_key,
  handle_delete_key,
}
use pico.Syncer.Local.{SameLocal, handle-SameLocal}
use pico.Syncer.Routes.{handle_upsert_key-CanServe}
use pico.Cluster.Lookup.{CanServe}
use pico.Syncer.Pending.{Splits}
use pico.Syncer.Handlers.{handle-Splits}
use pico.Syncer.Endpoints.{heard, handle_upsert_key-heard, handle_delete_key-heard}

abbrev here : Node
here = record {
  id = codes "a";
  status = active;
  proxy_addr = codes "a:8000";
  admin_addr = codes "a:8002";
  endpoints = [];
}

abbrev alone : State
alone = record {
  local_id = codes "a";
  nodes = (codes "a", here) ∷ [];
  local_endpoint_subscribers = [];
  remote_endpoint_subscribers = [];
}

abbrev hearing : Syncer
hearing = record {
  pending_nodes = (codes "b", record (empty_node (codes "b")) { proxy_addr = codes "b:8000" }) ∷ [];
  cluster_state = alone;
}

hearing-Splits : Splits hearing
unfolding lookup str_dec
hearing-Splits = record { pending = λ k n h. ground arith; joined = λ k n h. ground arith }

remote : codes "b" ≢ codes "a"
remote = ground arith

handle-Splits_example :
    Splits (handle hearing (on_upsert_key (codes "b") admin_addr_key (codes "b:8002"))).0
handle-Splits_example =
    handle-Splits hearing (on_upsert_key (codes "b") admin_addr_key (codes "b:8002")) hearing-Splits

handle_upsert_key-heard_example :
    heard
      (handle_upsert_key hearing (codes "b") (endpoint_key (codes "e")) (itoa 2)).0
      (codes "b")
      (codes "e")
    ≡ some 2
unfolding lookup str_dec
handle_upsert_key-heard_example =
    handle_upsert_key-heard hearing hearing-Splits (codes "b") remote (codes "e") 2 (omega arith)
      (inr (record (empty_node (codes "b")) { proxy_addr = codes "b:8000" }, refl))

handle_delete_key-heard_example :
    heard
      (handle_delete_key hearing (codes "b") (endpoint_key (codes "e"))).0
      (codes "b")
      (codes "e")
    ≡ none
handle_delete_key-heard_example =
    handle_delete_key-heard hearing hearing-Splits (codes "b") remote (codes "e")

abbrev other : Node
other = record here { id = codes "b"; proxy_addr = codes "b:8000"; admin_addr = codes "b:8002" }

abbrev both : Syncer
both = new_syncer (record alone { nodes = (codes "a", here) ∷ (codes "b", other) ∷ [] })

both-Splits : Splits both
unfolding lookup str_dec
both-Splits = record { pending = λ k n h. ground arith; joined = λ k n h. ground arith }

handle_upsert_key-CanServe_example :
    (m : Node) × (lookup_endpoint
        (handle_upsert_key both (codes "b") (endpoint_key (codes "e")) (itoa 2)).0.cluster_state
        (codes "e")
      ≡ some m)
    × CanServe (codes "a") (codes "e") m
unfolding lookup str_dec
handle_upsert_key-CanServe_example =
    handle_upsert_key-CanServe both both-Splits (codes "b") remote other refl (codes "e") 2 refl
      (omega arith) (omega arith)

handle-SameLocal_example :
    SameLocal both.cluster_state
      (handle both
        (on_upsert_key (codes "b") (endpoint_key (codes "e")) (codes "3"))).0.cluster_state
handle-SameLocal_example =
    handle-SameLocal both (on_upsert_key (codes "b") (endpoint_key (codes "e")) (codes "3"))
