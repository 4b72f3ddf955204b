-- ===== src/Gossip/Packets/Sizes.antt =====
-- pkg/gossip/listener.go and pkg/gossip/gossip.go: the packets that are written.
use pico.Prelude.{
  ℕ, ◌≤◌, ◌≡◌, refl, inl, inr, List, [], ◌∷◌, ◌++◌, none, some, Bool, true, false, Bool-cases,
  Option-cases, arith, length, All, GoString, ◌==◌, ◌%◌, get_elem?, sym, ◌∙◌,
}
use pico.Gossip.Types.{Time, NodeMetadata, Digest, Delta}
use pico.Gossip.State.{ClusterState, local_node_metadata, live_nodes, unreachable_nodes}
use pico.Gossip.Detector.{report}
use pico.Gossip.Delta.{digest, delta}
use pico.Gossip.Apply.{apply_digest}
use pico.Gossip.Protocol.{
  Bytes, Result, ok, err, Result-cases, encode_digest, DigestHeader, decode_digest, decode_delta,
  IsCodec, delta_type, supported_version, digest_type, start_packet, append_all,
}
use pico.Gossip.Protocol.Arrival.{decode_digest-encode_digest, decode_delta-encode_delta}
use pico.Gossip.Packets.{
  Network, Packet, Sending, Handled, handle_packet, send_delta, send_digest, answer, gossip,
  write_packet, handle_digest, handle_delta, dispatch, gossip_round, delta_packet, digest_packet,
  gossip_with_one,
}

module _ (net : Network) where
  -- `gossip` sends what `sendDigest` sends as a request.
  pub gossip-send_digest :
      (s : ClusterState) (node : NodeMetadata)
      → gossip net s node ≡ send_digest net s (digest s) node.addr true
  unfolding gossip send_digest encode_digest write_packet
  gossip-send_digest s node = elim (Option-cases (local_node_metadata s)) [
    | inl missing ↦ ground (arith, missing)
    | inr (local, found) ↦
        let header : DigestHeader = record {
          node_id = local.id;
          addr = local.addr;
          request = true;
        } in
        elim (Result-cases
          (start_packet net.codec.digest_header digest_type header net.max_packet_size)) [
            | inr (e, failed) ↦ ground (arith, found, failed)
            | inl (buf, started) ↦
                elim (Result-cases (
                  append_all net.codec.digest_entry net.max_packet_size (net.shuffle (digest s))
                    buf)) [
                      | inr (e, failed) ↦ ground (arith, found, started, failed)
                      | inl (sent, added) ↦ ground (arith, found, started, added)
                    ]
          ]
  ]

-- The packets are no longer than the packet size.
abbrev pub Fit : ℕ → List Packet → Type 0
Fit max ps = All (λ (p : Packet). length p.bytes ≤ max) ps

Fit-append : (max : ℕ) (ps qs : List Packet) → Fit max ps → Fit max qs → Fit max (ps ++ qs)
Fit-append max [] qs hp hq = hq
Fit-append max (p ∷ ps) qs hp hq = (hp.0, Fit-append max ps qs hp.1 hq)

module _ (net : Network) (laws : IsCodec net.codec) where
  write_packet-Fit :
      (r : Result Bytes) (addr : GoString)
      → ((b : Bytes) → r ≡ ok b → length b ≤ net.max_packet_size)
      → Fit net.max_packet_size (write_packet net r addr).0
  unfolding write_packet
  write_packet-Fit (err e) addr h = tt
  write_packet-Fit (ok b) addr h = elim (Option-cases (net.resolve_udp_addr addr)) [
    | inl unknown ↦ rw (write_packet, unknown) tt
    | inr (to, found) ↦ elim (Bool-cases (net.write_to b to)) [
      | inl written ↦ rw (write_packet, found, written) (h b refl, tt)
      | inr failed ↦ rw (write_packet, found, failed) tt
    ]
  ]

  send_delta-Fit :
      (s : ClusterState) (ds : Delta) (addr : GoString) {r : Sending}
      → send_delta net s ds addr ≡ some r
      → Fit net.max_packet_size r.0
  unfolding send_delta
  send_delta-Fit s ds addr {r} done = elim (Option-cases (local_node_metadata s)) [
    | inl missing ↦ absurd (ground (arith, done, missing))
    | inr (local, found) ↦
        let same : write_packet net (delta_packet net local ds) addr ≡ r =
          ground (arith, done, found) in
        rw (← same) (
          write_packet-Fit _ addr (λ b wrote.
            (decode_delta-encode_delta net.codec laws _ ds net.max_packet_size b wrote).2))
  ]

  send_digest-Fit :
      (s : ClusterState) (ds : Digest) (addr : GoString) (request : Bool) {r : Sending}
      → send_digest net s ds addr request ≡ some r
      → Fit net.max_packet_size r.0
  unfolding send_digest
  send_digest-Fit s ds addr request {r} done = elim (Option-cases (local_node_metadata s)) [
    | inl missing ↦ absurd (ground (arith, done, missing))
    | inr (local, found) ↦
        let same : write_packet net (digest_packet net local ds request) addr ≡ r =
          ground (arith, done, found) in
        rw (← same) (
          write_packet-Fit _ addr (λ b wrote.
            (decode_digest-encode_digest net.codec laws _ (net.shuffle ds) net.max_packet_size b
              wrote).3))
  ]

  handle_digest-Fit :
      (s : ClusterState) (b : Bytes) {r : Handled}
      → handle_digest net s b ≡ some r
      → Fit net.max_packet_size r.packets
  unfolding handle_digest answer
  handle_digest-Fit s b {r} done = elim (Result-cases (decode_digest net.codec b)) [
    | inr (e, bad) ↦ let none_sent : r.packets ≡ [] = ground (arith, done, bad) in rw none_sent tt
    | inl ((header, ds), read) ↦
        let s' = (apply_digest s ds).0 in
        elim (Option-cases (send_delta net s' (delta s' ds false) header.addr)) [
          | inl panics ↦ absurd (ground (arith, done, read, panics))
          | inr ((ps, some e), sent) ↦
              let same : r.packets ≡ ps = ground (arith, done, read, sent) in
              rw same (send_delta-Fit s' (delta s' ds false) header.addr sent)
          | inr ((ps, none), sent) ↦ elim (Bool-cases header.request) [
            | inr no_request ↦
                let same : r.packets ≡ ps = ground (arith, done, read, sent, no_request) in
                rw same (send_delta-Fit s' (delta s' ds false) header.addr sent)
            | inl request ↦ elim (Option-cases (send_digest net s' (digest s') header.addr false)) [
              | inl panics ↦ absurd (ground (arith, done, read, sent, request, panics))
              | inr (more, sent') ↦
                  let same : r.packets ≡ ps ++ more.0 =
                    ground (arith, done, read, sent, request, sent') in
                  rw same (
                    Fit-append net.max_packet_size ps more.0
                      (send_delta-Fit s' (delta s' ds false) header.addr sent)
                      (send_digest-Fit s' (digest s') header.addr false sent'))
            ]
          ]
        ]
  ]

  handle_delta-Fit :
      (s : ClusterState) (now : Time) (b : Bytes) {r : Handled}
      → handle_delta net s now b ≡ some r
      → r.packets ≡ []
  unfolding handle_delta
  handle_delta-Fit s now b {r} done = elim (Result-cases (decode_delta net.codec b)) [
    | inr (e, bad) ↦ ground (arith, done, bad)
    | inl ((header, ds), read) ↦
        elim (Option-cases (report s.failure_detector header.node_id now)) [
          | inl panics ↦ absurd (ground (arith, done, read, panics))
          | inr (d, reported) ↦ ground (arith, done, read, reported)
        ]
  ]

  dispatch-Fit :
      (s : ClusterState) (now : Time) (t version : ℕ) (b : Bytes) {r : Handled}
      → dispatch net s now t version b ≡ some r
      → Fit net.max_packet_size r.packets
  unfolding dispatch
  dispatch-Fit s now t version b {r} done = elim (Bool-cases (t == digest_type)) [
    | inl is_digest ↦ handle_digest-Fit s b {r = r} (ground (arith, done, is_digest))
    | inr other ↦ elim (Bool-cases (t == delta_type)) [
      | inl is_delta ↦
          let nothing = handle_delta-Fit s now b {r = r} (ground (arith, done, other, is_delta)) in
          rw nothing tt
      | inr neither ↦
          let nothing : r.packets ≡ [] = ground (arith, done, other, neither) in rw nothing tt
    ]
  ]

  -- If the codec reads back what it wrote, every packet that is sent in answer to a packet is no
  -- longer than the packet size.
  pub handle_packet-Fit :
      (s : ClusterState) (now : Time) (b : Bytes) {r : Handled}
      → handle_packet net s now b ≡ some r
      → Fit net.max_packet_size r.packets
  unfolding handle_packet
  handle_packet-Fit s now [] {r} done =
      let nothing : r.packets ≡ [] = ground (arith, done) in rw nothing tt
  handle_packet-Fit s now (t ∷ []) {r} done =
      let nothing : r.packets ≡ [] = ground (arith, done) in rw nothing tt
  handle_packet-Fit s now (t ∷ version ∷ b) {r} done =
      elim (Bool-cases (version == supported_version)) [
        | inl same ↦
            dispatch-Fit s now t version (t ∷ version ∷ b) {r = r} (ground (arith, done, same))
        | inr other ↦ let nothing : r.packets ≡ [] = ground (arith, done, other) in rw nothing tt
      ]

  gossip_with_one-Fit :
      (s : ClusterState) (ns : List NodeMetadata) (random : ℕ) {r : Sending}
      → gossip_with_one net s ns random ≡ some r
      → Fit net.max_packet_size r.0
  unfolding gossip_with_one
  gossip_with_one-Fit s [] random {r} done =
      let nothing : r.0 ≡ [] = ground (arith, done) in rw nothing tt
  gossip_with_one-Fit s (n ∷ ns) random {r} done =
      elim (Option-cases (get_elem? (n ∷ ns) (random % length (n ∷ ns)))) [
        | inl out ↦ absurd (ground (arith, done, out))
        | inr (node, picked) ↦
            let sent : gossip net s node ≡ some r = ground (arith, done, picked) in
            send_digest-Fit s (digest s) node.addr true (sym (gossip-send_digest net s node) ∙ sent)
      ]

  pub gossip_round-Fit :
      (s : ClusterState) (random random' : ℕ) {r : Sending}
      → gossip_round net s random random' ≡ some r
      → Fit net.max_packet_size r.0
  unfolding gossip_round
  gossip_round-Fit s random random' {r} done =
      elim (Option-cases (gossip_with_one net s (live_nodes s) random)) [
        | inl panics ↦ absurd (ground (arith, done, panics))
        | inr ((ps, some e), sent) ↦
            let same : r.0 ≡ ps = ground (arith, done, sent) in
            rw same (gossip_with_one-Fit s (live_nodes s) random sent)
        | inr ((ps, none), sent) ↦
            elim (Option-cases (gossip_with_one net s (unreachable_nodes s) random')) [
              | inl panics ↦ absurd (ground (arith, done, sent, panics))
              | inr ((more, e), sent') ↦
                  let same : r.0 ≡ ps ++ more = ground (arith, done, sent, sent') in
                  rw same (
                    Fit-append net.max_packet_size ps more
                      (gossip_with_one-Fit s (live_nodes s) random sent)
                      (gossip_with_one-Fit s (unreachable_nodes s) random' sent'))
            ]
      ]
