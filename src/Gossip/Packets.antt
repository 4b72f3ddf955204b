-- ===== src/Gossip/Packets.antt =====
-- pkg/gossip/listener.go: the packet listener. pkg/gossip/gossip.go: a round of gossip.
-- A handler's calls of the state are made in one step; each takes the state's mutex by itself.
use pico.Prelude.{
  ℕ, ◌%◌, GoString, GoMap, Bool, true, false, List, [], ◌∷◌, ◌++◌, Option, none, some, length, ltb,
  ◌==◌, if◌then◌else◌, ◌>>=◌, get_elem?,
}
use pico.Gossip.Types.{Time, NodeMetadata, Digest, Delta, Effect}
use pico.Gossip.Detector.{report}
use pico.Gossip.State.{ClusterState, local_node_metadata, live_nodes, unreachable_nodes}
use pico.Gossip.Delta.{digest, delta}
use pico.Gossip.Apply.{apply_digest, apply_delta}
use pico.Gossip.Protocol.{
  Bytes, Codec, Error, Result, ok, err, Buffer, DigestHeader, DeltaHeader, encode_digest,
  encode_delta, decode_digest, decode_delta, digest_type, delta_type, supported_version,
  resolve_failed, write_failed, packet_too_small, unsupported_version, unsupported_type,
  start_packet, append_all, take,
}
pub mod Rejected
pub mod Sizes
pub mod Dispatch
pub mod Rounds
pub mod Safety

-- What is outside the repository: the codec, `net.ResolveUDPAddr`, whether `WriteTo` succeeds, and
-- `rand.Shuffle`; and the configured packet size.
pub record Network : Type 0 where
  pub codec : Codec
  pub resolve_udp_addr : GoString → Option GoString
  pub write_to : Bytes → GoString → Bool
  pub shuffle : Digest → Digest
  pub max_packet_size : ℕ

pub record Packet : Type 0 where
  pub to : GoString
  pub bytes : Bytes

-- What sending did: the packet, if it was written, and the error.
abbrev pub Sending : Type 0
Sending = List Packet × Option Error

-- What handling a packet did.
pub record Handled : Type 0 where
  pub state : ClusterState
  pub effects : List Effect
  pub packets : List Packet
  pub error : Option Error

abbrev pub failed : ClusterState → Error → Handled
failed s e = record { state = s; effects = []; packets = []; error = some e }

module _ (net : Network) where
  -- The end of `sendDelta`, of `sendDigest` and of `gossip`.
  unfoldable pub write_packet : Result Bytes → GoString → Sending
  write_packet (err e) addr = ([], some e)
  write_packet (ok b) addr = elim (net.resolve_udp_addr addr) [
    | none ↦ ([], some (resolve_failed addr))
    | some to ↦
        if net.write_to b to
        then (record { to = to; bytes = b } ∷ [], none)
        else ([], some (write_failed addr))
  ]

  abbrev pub delta_packet : NodeMetadata → Delta → Result Bytes
  delta_packet local ds =
      encode_delta net.codec (record { node_id = local.id; addr = local.addr; entries = 0 }) ds
        net.max_packet_size

  abbrev pub digest_header_of : NodeMetadata → Bool → DigestHeader
  digest_header_of local request = record {
    node_id = local.id;
    addr = local.addr;
    request = request;
  }

  abbrev pub digest_packet : NodeMetadata → Digest → Bool → Result Bytes
  digest_packet local ds request =
      encode_digest net.codec (digest_header_of local request) (net.shuffle ds) net.max_packet_size

  -- `packetListener.sendDelta`
  unfoldable pub send_delta : ClusterState → Delta → GoString → Option Sending
  unfolding write_packet
  send_delta s ds addr = do
    local ← local_node_metadata s
    some (write_packet (delta_packet local ds) addr)

  -- `packetListener.sendDigest`
  unfoldable pub send_digest : ClusterState → Digest → GoString → Bool → Option Sending
  unfolding write_packet
  send_digest s ds addr request = do
    local ← local_node_metadata s
    some (write_packet (digest_packet local ds request) addr)

  -- What `packetListener.digest` sends once the digest was applied.
  unfoldable pub answer : ClusterState → DigestHeader → Digest → Option Sending
  unfolding send_delta send_digest
  answer s header ds = do
    (packets, error) ← send_delta s (delta s ds false) header.addr
    elim error [
      | some e ↦ some (packets, some e)
      | none ↦ elim header.request [
        | false ↦ some (packets, none)
        | true ↦ do
          (more, error') ← send_digest s (digest s) header.addr false
          some (packets ++ more, error')
      ]
    ]

  -- `packetListener.digest`
  unfoldable pub handle_digest : ClusterState → Bytes → Option Handled
  unfolding answer
  handle_digest s b = elim (decode_digest net.codec b) [
    | err e ↦ some (failed s e)
    | ok (header, ds) ↦ do
      let (s', effects) = apply_digest s ds
      (packets, error) ← answer s' header ds
      some (record { state = s'; effects = effects; packets = packets; error = error })
  ]

  -- `packetListener.delta`. The listener's failure detector is the state's.
  unfoldable pub handle_delta : ClusterState → Time → Bytes → Option Handled
  handle_delta s now b = elim (decode_delta net.codec b) [
    | err e ↦ some (failed s e)
    | ok (header, ds) ↦ do
      d ← report s.failure_detector header.node_id now
      let (s', effects) = apply_delta (record s { failure_detector = d }) now ds
      some (record { state = s'; effects = effects; packets = []; error = none })
  ]

  -- The switch of `packetListener.handlePacket`. The error of an unsupported type prints the version.
  unfoldable pub dispatch : ClusterState → Time → ℕ → ℕ → Bytes → Option Handled
  unfolding handle_digest handle_delta
  dispatch s now message_type version b =
      if message_type == digest_type
      then handle_digest s b
      else if message_type == delta_type
      then handle_delta s now b
      else some (failed s (unsupported_type version))

  -- `packetListener.handlePacket`
  unfoldable pub handle_packet : ClusterState → Time → Bytes → Option Handled
  unfolding dispatch
  handle_packet s now [] = some (failed s (packet_too_small 0))
  handle_packet s now (t ∷ []) = some (failed s (packet_too_small 1))
  handle_packet s now (t ∷ version ∷ b) =
      if version == supported_version
      then dispatch s now t version (t ∷ version ∷ b)
      else some (failed s (unsupported_version version))

  -- `Gossip.gossip`
  unfoldable pub gossip : ClusterState → NodeMetadata → Option Sending
  unfolding write_packet
  gossip s node = do
    local ← local_node_metadata s
    elim (start_packet net.codec.digest_header digest_type (digest_header_of local true)
        net.max_packet_size) [
          | err e ↦ some ([], some e)
          | ok buf ↦
              elim (append_all net.codec.digest_entry net.max_packet_size (net.shuffle (digest s))
                buf) [
                  | err e ↦ some ([], some e)
                  | ok sent ↦ some (write_packet (ok (take sent.len sent.bytes)) node.addr)
                ]
        ]

  -- `nodes[rand.Int()%len(nodes)]`, if there is one.
  unfoldable pub gossip_with_one : ClusterState → List NodeMetadata → ℕ → Option Sending
  unfolding gossip
  gossip_with_one s [] random = some ([], none)
  gossip_with_one s (n ∷ ns) random = do
    node ← get_elem? (n ∷ ns) (random % length (n ∷ ns))
    gossip s node

  -- `Gossip.gossipRound`, with the two random numbers that it draws.
  unfoldable pub gossip_round : ClusterState → ℕ → ℕ → Option Sending
  unfolding gossip_with_one
  gossip_round s random random' = do
    (packets, error) ← gossip_with_one s (live_nodes s) random
    elim error [
      | some e ↦ some (packets, some e)
      | none ↦ do
        (more, error') ← gossip_with_one s (unreachable_nodes s) random'
        some (packets ++ more, error')
    ]
