-- ===== src/Tests/Streams.antt =====
-- pkg/gossip: `b` joins `a` over a stream, and leaves.
use pico.Prelude.{
  ◌≡◌, ◌≢◌, GoString, List, refl, lookup, insert, values, [], ◌∷◌, some, none, arith, true, false,
  str_dec,
}
use pico.Gossip.Types.{NodeMetadata, NodeState, Effect, Delta}
use pico.Gossip.Sort.{sort_by_version, insert_by_version}
use pico.Gossip.State.{ClusterState, new_node, local_node_metadata, all_nodes}
use pico.Gossip.Delta.{
  delta_entry, delta, digest, newer, local_delta, digest_of, delta_known, delta_unknown, in_digest,
}
use pico.Gossip.Apply.{apply_entries, apply_delta, apply_digest}
use pico.Gossip.Sync.Nodes.{Tracks}
use pico.Gossip.Protocol.{Bytes, no_fuel, Result, ok, err, take}
use pico.Gossip.Streams.{StreamNetwork, Served, refused, handle_conn, read_joined, leave}
use pico.Gossip.Streams.Messages.{join_request, join_reply}
use pico.Gossip.Streams.Joined.{join-Tracks}
use pico.Gossip.Streams.Notified.{
  leave_lem, IsLeft, candidates, succeeded, last_failure, outcome_of, error_after,
}
use pico.Tests.Replicas.{a_addr}
use pico.Tests.Formats.{plain_codec, plain_codec-IsCodec, decode_text, encode_list, decode_list}
use pico.Tests.Packets.{
  b_id, owner, owner-WellFormed, a_state, b_state, a-Tracks, b-Tracks, or_else,
}

abbrev pub net : StreamNetwork
net = record {
  codec = plain_codec;
  dial = λ addr. true;
  exchange = λ addr b. none;
  flush = λ b. true;
  split_host_port = λ addr. none;
  parse_ip = λ host. false;
  lookup_ip = λ host. none;
  shuffle = λ ns. ns;
  bind_addr = a_addr;
}

abbrev local : NodeMetadata
local = (new_node b_id a_addr).metadata

abbrev own : Delta
own = delta_entry (new_node b_id a_addr) 0 ∷ []

abbrev bytes_of : Result Bytes → Bytes
bytes_of (ok b) = b
bytes_of (err e) = []

abbrev request : Bytes
request = bytes_of (join_request plain_codec local own (digest b_state))

abbrev served : Served
served = or_else (handle_conn net a_state 9 request) (refused a_state no_fuel)

join-Tracks_example :
    Tracks owner served.state
    × Tracks owner (read_joined net b_state 9 (bytes_of served.reply)).0
    × (host : NodeMetadata) × (local_node_metadata served.state ≡ some host)
    × ((read_joined net b_state 9 (bytes_of served.reply)).2 ≡ ok host.id)
unfolding handle_conn join_request join_reply decode_text lookup insert str_dec digest digest_of
    delta delta_known delta_unknown in_digest delta_entry newer apply_digest apply_delta
    apply_entries sort_by_version insert_by_version values local_node_metadata local_delta
    encode_list decode_list
join-Tracks_example =
    join-Tracks net plain_codec-IsCodec owner owner-WellFormed b_state a_state b-Tracks a-Tracks
      local {own = own} refl {request = request} refl 9 {r = served} refl b_state 9
      (bytes_of served.reply) b-Tracks (λ id. omega arith) refl

leave_lem_example :
    (s' : ClusterState) × (n' : NodeState) × (effects : List Effect) × let asked =
        candidates b_id (all_nodes s') in
      let answered = succeeded (outcome_of net s') asked in
      (leave net b_state
        ≡ some (
          s',
          effects,
          take 4 answered,
          error_after 0 answered (last_failure (outcome_of net s') none asked),
        ))
      × (lookup b_state.local_id s'.nodes ≡ some n')
      × IsLeft (new_node b_id a_addr) n'
      × ((id : GoString) → b_state.local_id ≢ id → lookup id s'.nodes ≡ lookup id b_state.nodes)
unfolding lookup insert str_dec
leave_lem_example = leave_lem net b_state (new_node b_id a_addr) refl
