-- ===== src/Cluster/Types.antt =====
-- server/cluster/node.go. An int is its 64-bit pattern.
use pico.Prelude.{ℕ, GoString, GoMap, values, List, [], ◌∷◌, length}
use pico.Prelude.Int64.{add_int64}

-- `NodeStatus`; `unset` is the empty string of a node that is not in the cluster yet.
pub data NodeStatus : Type 0 where
  unset active unreachable left : NodeStatus

pub record Node : Type 0 where
  pub id : GoString
  pub status : NodeStatus
  pub proxy_addr : GoString
  pub admin_addr : GoString
  -- A nil map reads as an empty one, and every write makes the map first.
  pub endpoints : GoMap ℕ

pub record NodeMetadata : Type 0 where
  pub id : GoString
  pub status : NodeStatus
  pub proxy_addr : GoString
  pub admin_addr : GoString
  pub endpoints : ℕ
  pub upstreams : ℕ

-- The loop of `Metadata`.
unfoldable pub sum_upstreams : List ℕ → ℕ
sum_upstreams [] = 0
sum_upstreams (x ∷ xs) = add_int64 x (sum_upstreams xs)

-- `Metadata`
unfoldable pub metadata : Node → NodeMetadata
unfolding sum_upstreams
metadata n = record {
  id = n.id;
  status = n.status;
  proxy_addr = n.proxy_addr;
  admin_addr = n.admin_addr;
  endpoints = length n.endpoints;
  upstreams = sum_upstreams (values n.endpoints);
}
