-- ===== src/Gossip/Streams.antt =====
-- pkg/gossip/listener.go: the stream listener. pkg/gossip/gossip.go: Join and Leave, with the
-- streams that they open.
use pico.Prelude.{
  ℕ, suc, ◌+◌, GoString, codes, Bool, true, false, ◌||◌, List, [], ◌∷◌, ◌++◌, Option, none, some,
  ltb, ◌==◌, if◌then◌else◌, ite, str_dec, ◌>>=◌,
}
use pico.Gossip.Types.{Time, NodeMetadata, Digest, Delta, Effect}
use pico.Gossip.State.{ClusterState, local_node_metadata, all_nodes}
use pico.Gossip.Delta.{digest, delta, local_delta}
use pico.Gossip.Apply.{apply_digest, apply_delta}
use pico.Gossip.Local.{leave_local}
use pico.Gossip.Protocol.{
  Bytes, Codec, Error, Result, ok, err, LeaveHeader, decode_one, join_type, leave_type,
  supported_version, unsupported_version, unsupported_type, read_failed, write_failed, dial_failed,
  resolve_failed,
}
use pico.Gossip.Streams.Messages.{
  join_request, read_join, join_reply, read_header_and_delta, leave_request, leave_reply,
}
pub mod Messages
pub mod Joined
pub mod Notified

-- What is outside the repository: the codec; whether `Dial` succeeds; what comes back on a
-- connection after a request, or that it could not be written; whether a reply can be written;
-- `net.SplitHostPort`, `net.ParseIP`, `net.LookupIP` with each address printed, and `rand.Shuffle`;
-- and the configured `BindAddr`.
pub record StreamNetwork : Type 0 where
  pub codec : Codec
  pub dial : GoString → Bool
  pub exchange : GoString → Bytes → Option Bytes
  pub flush : Bytes → Bool
  pub split_host_port : GoString → Option (GoString × GoString)
  pub parse_ip : GoString → Bool
  pub lookup_ip : GoString → Option (List GoString)
  pub shuffle : List NodeMetadata → List NodeMetadata
  pub bind_addr : GoString

-- What a connection did to the listener's state, and what was written back.
pub record Served : Type 0 where
  pub state : ClusterState
  pub effects : List Effect
  pub reply : Result Bytes

abbrev pub refused : ClusterState → Error → Served
refused s e = record { state = s; effects = []; reply = err e }

-- What `Join` has done so far: the state, the nodes joined, and the last error.
pub record Joining : Type 0 where
  pub state : ClusterState
  pub effects : List Effect
  pub joined : List GoString
  pub last_error : Option Error

abbrev pub tried : Joining → ClusterState × List Effect × Result GoString → Joining
tried j (s, effects, err e) = record {
  state = s;
  effects = j.effects ++ effects;
  joined = j.joined;
  last_error = some e;
}
tried j (s, effects, ok id) = record {
  state = s;
  effects = j.effects ++ effects;
  joined = j.joined ++ (id ∷ []);
  last_error = j.last_error;
}

abbrev pub start_joining : ClusterState → Joining
start_joining s = record { state = s; effects = []; joined = []; last_error = none }

module _ (net : StreamNetwork) where
  -- `w.Flush()`
  abbrev pub flushed : Result Bytes → Result Bytes
  flushed (err e) = err e
  flushed (ok b) = if net.flush b then ok b else err (write_failed [])

  -- `streamListener.join`
  unfoldable pub serve_join : ClusterState → Time → Bytes → Option Served
  unfolding read_join join_reply
  serve_join s now b = elim (read_join net.codec b) [
    | err e ↦ some (refused s e)
    | ok (header, ds, digests) ↦ do
      let (s', effects) = apply_delta s now ds
      let (s'', effects') = apply_digest s' digests
      local ← local_node_metadata s''
      some (record {
        state = s'';
        effects = effects ++ effects';
        reply = flushed (join_reply net.codec local (delta s'' digests true));
      })
  ]

  -- `streamListener.leave`
  unfoldable pub serve_leave : ClusterState → Time → Bytes → Option Served
  unfolding read_header_and_delta leave_reply
  serve_leave s now b = elim (read_header_and_delta net.codec b) [
    | err e ↦ some (refused s e)
    | ok (header, ds) ↦ do
      let (s', effects) = apply_delta s now ds
      local ← local_node_metadata s'
      some (record { state = s'; effects = effects; reply = flushed (leave_reply net.codec local) })
  ]

  -- `streamListener.handleConn`, on all that the peer writes. The error of an unsupported type
  -- prints the version.
  unfoldable pub handle_conn : ClusterState → Time → Bytes → Option Served
  unfolding serve_join serve_leave
  handle_conn s now [] = some (refused s read_failed)
  handle_conn s now (t ∷ []) = some (refused s read_failed)
  handle_conn s now (t ∷ version ∷ b) =
      if version == supported_version
      then (if t == join_type
          then serve_join s now b
          else if t == leave_type
          then serve_leave s now b
          else some (refused s (unsupported_type version)))
      else some (refused s (unsupported_version version))

  -- `Gossip.join`: what it makes of what comes back.
  unfoldable pub read_joined :
      ClusterState → Time → Bytes → ClusterState × List Effect × Result GoString
  unfolding read_header_and_delta
  read_joined s now b = elim (read_header_and_delta net.codec b) [
    | err e ↦ (s, [], err e)
    | ok (header, ds) ↦ let (s', effects) = apply_delta s now ds in (s', effects, ok header.node_id)
  ]

  -- `Gossip.join`
  unfoldable pub join_one :
      ClusterState → Time → GoString → Option (ClusterState × List Effect × Result GoString)
  unfolding join_request read_joined
  join_one s now addr = elim (net.dial addr) [
    | false ↦ some (s, [], err dial_failed)
    | true ↦ do
      local ← local_node_metadata s
      ds ← local_delta s
      elim (join_request net.codec local ds (digest s)) [
        | err e ↦ some (s, [], err e)
        | ok request ↦ elim (net.exchange addr request) [
          | none ↦ some (s, [], err (write_failed addr))
          | some b ↦ some (read_joined s now b)
        ]
      ]
  ]

  -- `Gossip.leave`; it changes no state. `none` in the result is no error.
  unfoldable pub leave_one : ClusterState → GoString → Option (Option Error)
  unfolding leave_request decode_one
  leave_one s addr = elim (net.dial addr) [
    | false ↦ some (some dial_failed)
    | true ↦ do
      local ← local_node_metadata s
      ds ← local_delta s
      elim (leave_request net.codec local ds) [
        | err e ↦ some (some e)
        | ok request ↦ elim (net.exchange addr request) [
          | none ↦ some (some (write_failed addr))
          | some b ↦ elim (decode_one net.codec.join_header b) [
            | err e ↦ some (some e)
            | ok header ↦ some none
          ]
        ]
      ]
  ]

  -- `strings.Contains(addr, ":")`
  abbrev pub contains_colon : GoString → Bool
  contains_colon [] = false
  contains_colon (c ∷ s) = if c == 58 then true else contains_colon s

  -- `ensurePort`; it panics on a bind address without a port.
  unfoldable pub ensure_port : GoString → Option GoString
  ensure_port addr =
      if contains_colon addr then some addr else elim (net.split_host_port net.bind_addr) [
        | none ↦ none
        | some (host, port) ↦ some (addr ++ (codes ":" ++ port))
      ]

  abbrev pub with_port : GoString → List GoString → List GoString
  with_port port [] = []
  with_port port (ip ∷ ips) = (ip ++ (codes ":" ++ port)) ∷ with_port port ips

  -- `resolveAddr`
  unfoldable pub resolve_addr : GoString → Result (List GoString)
  resolve_addr addr = elim (net.split_host_port addr) [
    | none ↦ err (resolve_failed addr)
    | some (host, port) ↦ if net.parse_ip host then ok (addr ∷ []) else elim (net.lookup_ip host) [
      | none ↦ err (resolve_failed host)
      | some ips ↦ ok (with_port port ips)
    ]
  ]

  -- The inner loop of `Join`.
  unfoldable pub join_resolved : Joining → Time → List GoString → Option Joining
  unfolding join_one
  join_resolved j now [] = some j
  join_resolved j now (addr ∷ addrs) = do
    r ← join_one j.state now addr
    join_resolved (tried j r) now addrs

  -- The outer loop; an address that does not resolve ends it with an error.
  unfoldable pub join_addrs : Joining → Time → List GoString → Option (Joining × Option Error)
  unfolding join_resolved ensure_port resolve_addr
  join_addrs j now [] = some (j, none)
  join_addrs j now (unresolved ∷ rest) = do
    addr ← ensure_port unresolved
    elim (resolve_addr addr) [
      | err e ↦ some (j, some e)
      | ok resolved ↦ do j' ← join_resolved j now resolved; join_addrs j' now rest
    ]

  -- What `Join` returns after its loop.
  unfoldable pub join_result : Joining → Option Error → Result (List GoString)
  join_result j (some e) = err e
  join_result j none = elim j.joined [
    | id ∷ ids ↦ ok (id ∷ ids)
    | [] ↦ elim j.last_error [ some e ↦ err e | none ↦ ok [] ]
  ]

  -- `Join`
  unfoldable pub join :
      ClusterState → Time → List GoString → Option (Joining × Result (List GoString))
  unfolding join_addrs join_result
  join s now addrs = do
    (j, failed) ← join_addrs (start_joining s) now addrs
    some (j, join_result j failed)

  -- The loop of `Leave`, with the addresses that were notified.
  unfoldable pub notify :
      ClusterState → List NodeMetadata → ℕ → Option Error → Option (List GoString × Option Error)
  unfolding leave_one
  notify s [] notified last = some ([], if ltb 0 notified then none else last)
  notify s (n ∷ ns) notified last = do
    local ← local_node_metadata s
    elim (str_dec n.id local.id) [
      | yes is_local ↦ notify s ns notified last
      | no is_other ↦ elim (n.left || n.unreachable) [
        | true ↦ notify s ns notified last
        | false ↦ do
          outcome ← leave_one s n.addr
          elim outcome [
            | some e ↦ notify s ns notified (some e)
            | none ↦ elim (ltb 3 (notified + 1)) [
              | true ↦ some (n.addr ∷ [], none)
              | false ↦ do
                (more, error) ← notify s ns (notified + 1) last
                some (n.addr ∷ more, error)
            ]
          ]
      ]
    ]

  -- `Leave`: the state, what it called, the addresses notified, and the error.
  unfoldable pub leave :
      ClusterState → Option (ClusterState × List Effect × List GoString × Option Error)
  unfolding notify
  leave s = do
    (s', effects) ← leave_local s
    (notified, error) ← notify s' (net.shuffle (all_nodes s')) 0 none
    some (s', effects, notified, error)
