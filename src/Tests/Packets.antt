-- ===== src/Tests/Packets.antt =====
-- pkg/gossip: `a` has a key, `b` knows of `a`; a round of gossip from `b`, a join, and a leave.
use pico.Prelude.{
  ◌≤◌, ◌≡◌, ◌≢◌, refl, sym, subst, GoString, codes, lookup, insert, values, List, [], ◌∷◌, ◌++◌,
  Option, some, none, arith, true, false, str_dec, inl, ite, if_pos, if_neg, length,
}
use pico.Gossip.Types.{NodeState, Digest, Delta}
use pico.Gossip.Sort.{sort_by_version, insert_by_version}
use pico.Gossip.State.{ClusterState, new_node, local_node_metadata}
use pico.Gossip.Delta.{delta_entry, delta, digest, newer, digest_of, delta_known}
use pico.Gossip.Apply.{apply_entries, apply_delta, apply_digest}
use pico.Gossip.Detector.{FailureDetector, report, new_arrival_window}
use pico.Gossip.Sync.{Consistent, WellFormed}
use pico.Gossip.Sync.Owner.{new_node-WellFormed}
use pico.Gossip.Sync.Nodes.{Tracks, insert-Tracks}
use pico.Gossip.Protocol.{
  Bytes, Error, no_fuel, ok, err, encode_delta, encode_digest, decode_delta, decode_digest,
  DeltaHeader, DigestHeader,
}
use pico.Gossip.Protocol.Parts.{IsPart}
use pico.Gossip.Protocol.Arrival.{decode_delta-encode_delta, decode_digest-encode_digest}
use pico.Gossip.Protocol.Totality.{decode-total}
use pico.Gossip.Packets.{Network, Packet, Sending, Handled, failed, gossip, handle_packet}
use pico.Gossip.Packets.Rejected.{handle_packet-unread}
use pico.Gossip.Packets.Sizes.{Fit, handle_packet-Fit}
use pico.Gossip.Packets.Rounds.{round-Tracks}
use pico.Gossip.Packets.Safety.{IsRunning, handle_packet-IsRunning}
use pico.Tests.Replicas.{a_id, a_addr, empty, entry, one, one-WellFormed, copy-Consistent}
use pico.Tests.Formats.{plain_codec, plain_codec-IsCodec, decode_text, encode_list, decode_list}

abbrev pub b_id : GoString
b_id = codes "b"

abbrev pub detector : FailureDetector
detector = record { windows = []; bootstrap_interval = 1; sample_size = 10 }

abbrev net : Network
net = record {
  codec = plain_codec;
  resolve_udp_addr = λ addr. some addr;
  write_to = λ b addr. true;
  shuffle = λ ds. ds;
  max_packet_size = 60;
}

abbrev pub owner : GoString → NodeState
owner id = ite (str_dec a_id id) one (new_node id a_addr)

pub owner-WellFormed : (id : GoString) → WellFormed (owner id)
owner-WellFormed id = elim (str_dec a_id id) [
  | yes p ↦
      subst WellFormed (sym (if_pos (str_dec a_id id) p one (new_node id a_addr))) one-WellFormed
  | no ne ↦
      subst WellFormed (sym (if_neg (str_dec a_id id) ne one (new_node id a_addr)))
        (new_node-WellFormed id a_addr)
]

abbrev pub alone : GoString → NodeState → ClusterState
alone id n = record { local_id = id; nodes = (id, n) ∷ []; failure_detector = detector }

alone-Tracks :
    (id : GoString) (n : NodeState)
    → Consistent (owner id) n
    → n.id ≡ id
    → Tracks owner (alone id n)
unfolding lookup
alone-Tracks id n c same = record {
  copies = λ k m h. elim (str_dec id k) [
    | yes p ↦
        let at : m ≡ n = ground arith in
        subst (λ x. Consistent (owner k) x) (sym at) (subst (λ j. Consistent (owner j) n) p c)
    | no ne ↦ absurd (ground arith)
  ];
  distinct = (refl, tt);
  ids = λ k m h. ground (arith, same);
}

abbrev pub a_state : ClusterState
a_state = alone a_id one

pub a-Tracks : Tracks owner a_state
unfolding str_dec
a-Tracks = alone-Tracks a_id one one-WellFormed refl

abbrev pub b_state : ClusterState
b_state = record (alone b_id (new_node b_id a_addr)) {
  nodes = insert a_id empty ((b_id, new_node b_id a_addr) ∷ []);
}

pub b-Tracks : Tracks owner b_state
unfolding str_dec
b-Tracks =
    insert-Tracks owner owner-WellFormed (alone b_id (new_node b_id a_addr)) a_id empty
      (alone-Tracks b_id (new_node b_id a_addr) (new_node-WellFormed b_id a_addr) refl)
      copy-Consistent refl

abbrev pub or_else : {A : Type 0} → Option A → A → A
or_else (some a) b = a
or_else none b = b

abbrev first : List Packet → Packet
first [] = record { to = []; bytes = [] }
first (p ∷ ps) = p

abbrev asking : Sending
asking = or_else (gossip net b_state empty.metadata) ([], none)

abbrev answered : Handled
answered = or_else (handle_packet net a_state 9 (first asking.0).bytes) (failed a_state no_fuel)

abbrev taken : Handled
taken =
    or_else (handle_packet net b_state 9 (first answered.packets).bytes) (failed b_state no_fuel)

-- The copy that `b` has of `a` afterwards.
taken_version : lookup a_id taken.state.nodes ≡ some one
unfolding gossip handle_packet decode_text lookup insert str_dec digest digest_of delta delta_known
    delta_entry newer apply_digest apply_delta apply_entries sort_by_version insert_by_version
    values local_node_metadata report encode_delta encode_digest decode_delta decode_digest
    encode_list decode_list new_arrival_window
taken_version = refl

round-Tracks_example : Tracks owner answered.state × Tracks owner taken.state
unfolding gossip handle_packet decode_text lookup insert str_dec digest digest_of delta delta_known
    delta_entry newer apply_digest apply_delta apply_entries sort_by_version insert_by_version
    values local_node_metadata report encode_delta encode_digest decode_delta decode_digest
    encode_list decode_list new_arrival_window
round-Tracks_example =
    round-Tracks net plain_codec-IsCodec owner owner-WellFormed a_state b_state b_state
      empty.metadata 9 9 (first asking.0) (first answered.packets) (λ ds d m. m) a-Tracks b-Tracks
      b-Tracks (λ id. omega arith) refl (inl refl) refl (inl refl) refl

abbrev header : DeltaHeader
header = record { node_id = a_id; addr = a_addr; entries = 0 }

abbrev one_delta : Delta
one_delta = record { id = a_id; addr = a_addr; entries = entry ∷ [] } ∷ []

-- Room for the node's header, but not for its entry.
abbrev cut_packet : Bytes
cut_packet = elim (encode_delta plain_codec header one_delta 38) [ ok b ↦ b | err e ↦ [] ]

decode_delta-encode_delta_example :
    (sent : Delta) × IsPart one_delta sent
    × (length cut_packet ≤ 38)
    × (decode_delta plain_codec cut_packet ≡ ok (header, sent))
unfolding encode_delta decode_text
decode_delta-encode_delta_example =
    decode_delta-encode_delta plain_codec plain_codec-IsCodec header one_delta 38 cut_packet refl

abbrev digest_header : DigestHeader
digest_header = record { node_id = a_id; addr = a_addr; request = true }

abbrev two : Digest
two =
    record { id = a_id; addr = a_addr; version = 1; left = false }
    ∷ record { id = b_id; addr = a_addr; version = 2; left = true }
    ∷ []

abbrev digest_bytes : Bytes
digest_bytes = elim (encode_digest plain_codec digest_header two 40) [ ok b ↦ b | err e ↦ [] ]

decode_digest-encode_digest_example :
    (sent : Digest) × (unsent : Digest) × (sent ++ unsent ≡ two)
    × (length digest_bytes ≤ 40)
    × (decode_digest plain_codec digest_bytes ≡ ok (digest_header, sent))
unfolding encode_digest decode_text
decode_digest-encode_digest_example =
    decode_digest-encode_digest plain_codec plain_codec-IsCodec digest_header two 40 digest_bytes
      refl

decode-total_example :
    (decode_digest plain_codec cut_packet ≢ err no_fuel)
    × (decode_delta plain_codec cut_packet ≢ err no_fuel)
decode-total_example = decode-total plain_codec plain_codec-IsCodec cut_packet

handle_packet-unread_example :
    (e : Error) × (handle_packet net a_state 9 (7 ∷ 0 ∷ []) ≡ some (failed a_state e))
unfolding decode_digest decode_delta
handle_packet-unread_example =
    handle_packet-unread net a_state 9 (7 ∷ 0 ∷ []) (λ h ds read. ground (arith, read))
      (λ h ds read. ground (arith, read))

handle_packet-Fit_example : Fit 60 answered.packets
unfolding gossip handle_packet decode_text lookup insert str_dec digest digest_of delta delta_known
    delta_entry newer apply_digest apply_delta apply_entries sort_by_version insert_by_version
    values local_node_metadata report encode_delta encode_digest decode_delta decode_digest
    encode_list decode_list new_arrival_window
handle_packet-Fit_example =
    handle_packet-Fit net plain_codec-IsCodec a_state 9 (first asking.0).bytes {r = answered} refl

a-IsRunning : IsRunning a_state
unfolding lookup str_dec
a-IsRunning = record {
  local = one;
  own = refl;
  reporting = record {
    windows = λ id w found. absurd (ground (arith, found));
    bootstrap = omega arith;
    room = omega arith;
  };
}

handle_packet-IsRunning_example :
    (r : Handled) × (handle_packet net a_state 9 cut_packet ≡ some r) × IsRunning r.state
handle_packet-IsRunning_example = handle_packet-IsRunning net a_state 9 cut_packet a-IsRunning
