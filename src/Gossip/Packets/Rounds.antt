-- ===== src/Gossip/Packets/Rounds.antt =====
-- pkg/gossip/listener.go and pkg/gossip/state.go: deltas that arrive as packets.
use pico.Prelude.{
  ◌≤◌, ◌≡◌, ◌∙◌, sym, subst, ◌⊎◌, inl, inr, some, true, false, Bool-cases, Option-cases, arith,
  GoString, All, Elem, Elem-either, Elem-front, All-elem, All-of_Elem,
}
use pico.Gossip.Types.{Time, NodeState, NodeMetadata, Digest, DigestEntry, Delta}
use pico.Gossip.Detector.{report}
use pico.Gossip.State.{ClusterState, local_node_metadata}
use pico.Gossip.Delta.{digest, delta}
use pico.Gossip.Apply.{apply_digest}
use pico.Gossip.Sync.{WellFormed}
use pico.Gossip.Sync.Nodes.{Tracks, Sent, apply_digest-Tracks, known_version, Sent-later, All-map}
use pico.Gossip.Sync.Asked.{IsAsked, digest-IsAsked, delta-Sent}
use pico.Gossip.Protocol.{
  Bytes, IsCodec, Result, ok, err, Result-cases, DeltaHeader, DigestHeader, decode_delta,
  decode_digest,
}
use pico.Gossip.Protocol.Arrival.{decode_delta-encode_delta, decode_digest-encode_digest}
use pico.Gossip.Protocol.Encoding.{IsPart-Sent}
use pico.Gossip.Packets.{
  Network, Handled, handle_packet, handle_digest, handle_delta, answer, delta_packet, digest_packet,
  Packet, write_packet, Sending, send_delta, send_digest, gossip,
}
use pico.Gossip.Packets.Rejected.{handle_packet-unread}
use pico.Gossip.Packets.Sizes.{gossip-send_digest}
use pico.Gossip.Packets.Dispatch.{
  handle_delta-Tracks, handle_packet-delta, handle_packet-digest, not_both, handle_digest-answer,
  handle_delta-panics,
}

module _ (net : Network) (laws : IsCodec net.codec) (owner : GoString → NodeState)
    (well : (id : GoString) → WellFormed (owner id)) where
  handle_digest-Tracks :
      (s : ClusterState) (packet : Bytes) {r : Handled}
      → Tracks owner s
      → handle_digest net s packet ≡ some r
      → Tracks owner r.state
  unfolding handle_digest
  handle_digest-Tracks s packet {r} t done = elim (Result-cases (decode_digest net.codec packet)) [
    | inr (e, bad) ↦ let same : r.state ≡ s = ground (arith, done, bad) in rw same t
    | inl ((header, ds), read) ↦ elim (Option-cases (answer net (apply_digest s ds).0 header ds)) [
      | inl panics ↦ absurd (ground (arith, done, read, panics))
      | inr (sent, answered) ↦
          let same : r.state ≡ (apply_digest s ds).0 = ground (arith, done, read, answered) in
          rw same (apply_digest-Tracks owner well ds s t)
    ]
  ]

  -- Whatever a packet is, if what it tells as a delta is a part of what `b` holds.
  pub handle_packet-Tracks :
      (b s : ClusterState) (now : Time) (packet : Bytes) {r : Handled}
      → Tracks owner b
      → Tracks owner s
      → ((h : DeltaHeader) (ds : Delta)
          → decode_delta net.codec packet ≡ ok (h, ds)
          → All (Sent b s) ds)
      → handle_packet net s now packet ≡ some r
      → Tracks owner r.state
  handle_packet-Tracks b s now packet {r} tb ts part done =
      elim (Result-cases (decode_delta net.codec packet)) [
        | inl ((h, ds), read) ↦
            let handled : handle_delta net s now packet ≡ some r =
              sym (handle_packet-delta net s now packet read) ∙ done in
            elim (Option-cases (report s.failure_detector h.node_id now)) [
              | inl panics ↦
                  absurd (ground (arith, handled, handle_delta-panics net s now packet read panics))
              | inr (d, reported) ↦
                  let (r', ran, no_error, t) =
                    handle_delta-Tracks net laws owner well b s now packet h ds d tb ts
                      (part h ds read) read reported in
                  let same : r ≡ r' = ground (arith, ran, handled) in rw same t
            ]
        | inr (e, bad) ↦ elim (Result-cases (decode_digest net.codec packet)) [
          | inl (x, read) ↦
              handle_digest-Tracks s packet {r = r} ts
                (sym (handle_packet-digest net s now packet read) ∙ done)
          | inr (e', bad') ↦
              let (x, rejected) =
                handle_packet-unread net s now packet
                  (λ h ds read. absurd (ground (arith, read, bad')))
                  (λ h ds read. absurd (ground (arith, read, bad))) in
              let same : r.state ≡ s = ground (arith, rejected, done) in rw same ts
        ]
      ]

  write_packet-ok :
      (x : Result Bytes) (addr : GoString) (p : Packet)
      → Elem p (write_packet net x addr).0
      → x ≡ ok p.bytes
  unfolding write_packet
  write_packet-ok (err e) addr p m = absurd m
  write_packet-ok (ok b) addr p m = elim (Option-cases (net.resolve_udp_addr addr)) [
    | inl unknown ↦ absurd (ground (arith, m, unknown))
    | inr (to, found) ↦ elim (Bool-cases (net.write_to b to)) [
      | inl written ↦ ground (arith, m, found, written)
      | inr failed ↦ absurd (ground (arith, m, found, failed))
    ]
  ]

  -- What is sent in answer to a digest: its delta, and the digest of the state.
  answer-cases :
      (s : ClusterState) (header : DigestHeader) (ds : Digest) {r : Sending} (p : Packet)
      → answer net s header ds ≡ some r
      → Elem p r.0
      → (local : NodeMetadata) × ((delta_packet net local (delta s ds false) ≡ ok p.bytes)
          ⊎ (digest_packet net local (digest s) false ≡ ok p.bytes))
  unfolding answer send_delta send_digest
  answer-cases s header ds {r} p done m = elim (Option-cases (local_node_metadata s)) [
    | inl missing ↦ absurd (ground (arith, done, missing))
    | inr (local, found) ↦
        let first = write_packet net (delta_packet net local (delta s ds false)) header.addr in
        let second = write_packet net (digest_packet net local (digest s) false) header.addr in
        let parts : Elem p first.0 ⊎ Elem p second.0 = elim (Option-cases first.1) [
          | inr (e, failed) ↦ inl (subst (λ ps. Elem p ps) (ground (arith, done, found, failed)) m)
          | inl fine ↦ elim (Bool-cases header.request) [
            | inr no_request ↦
                inl (subst (λ ps. Elem p ps) (ground (arith, done, found, fine, no_request)) m)
            | inl request ↦
                Elem-either p first.0 second.0
                  (subst (λ ps. Elem p ps) (ground (arith, done, found, fine, request)) m)
          ]
        ] in
        (
          local,
          elim parts [
            | inl m' ↦
                inl (write_packet-ok (delta_packet net local (delta s ds false)) header.addr p m')
            | inr m' ↦
                inr (write_packet-ok (digest_packet net local (digest s) false) header.addr p m')
          ],
        )
  ]

  answer-Sent :
      (s c : ClusterState) (header : DigestHeader) (ds : Digest) {r : Sending} (p : Packet)
      → Tracks owner s
      → All (IsAsked c) ds
      → answer net s header ds ≡ some r
      → Elem p r.0
      → (h : DeltaHeader) (ds' : Delta) → decode_delta net.codec p.bytes ≡ ok (h, ds')
      → All (Sent s c) ds'
  answer-Sent s c header ds p ts asked done m h ds' read =
      let (local, which) = answer-cases s header ds p done m in
      elim which [
        | inl as_delta ↦
            let (sent, part, fits, read') =
              decode_delta-encode_delta net.codec laws _ (delta s ds false) net.max_packet_size
                p.bytes as_delta in
            let same : sent ≡ ds' = ground (arith, read, read') in
            rw (← same) (
              IsPart-Sent s c (delta s ds false) sent part (delta-Sent owner s c ts ds false asked))
        | inr as_digest ↦
            let (sent, unsent, split, fits, read') =
              decode_digest-encode_digest net.codec laws _ (net.shuffle (digest s))
                net.max_packet_size p.bytes as_digest in
            absurd (not_both net.codec p.bytes read' read)
      ]

  -- A packet that `gossip` sends is a digest that claims no more than the node has.
  gossip-IsAsked :
      (c : ClusterState) (node : NodeMetadata) {r : Sending} (q : Packet)
      → Tracks owner c
      → ((ds : Digest) (d : DigestEntry) → Elem d (net.shuffle ds) → Elem d ds)
      → gossip net c node ≡ some r
      → Elem q r.0
      → (header : DigestHeader) × (ds : Digest) × (decode_digest net.codec q.bytes
          ≡ ok (header, ds))
        × All (IsAsked c) ds
  unfolding send_digest
  gossip-IsAsked c node {r} q tc shuffled done m = elim (Option-cases (local_node_metadata c)) [
    | inl missing ↦ absurd (ground (arith, done, gossip-send_digest net c node, missing))
    | inr (local, found) ↦
        let m' : Elem q (write_packet net (digest_packet net local (digest c) true) node.addr).0 =
          subst (λ ps. Elem q ps) (ground (arith, done, gossip-send_digest net c node, found)) m in
        let (sent, unsent, split, fits, read) =
          decode_digest-encode_digest net.codec laws _ (net.shuffle (digest c)) net.max_packet_size
            q.bytes (write_packet-ok (digest_packet net local (digest c) true) node.addr q m') in
        (
          _,
          sent,
          read,
          All-of_Elem (IsAsked c) sent (λ d e.
              All-elem (IsAsked c) (digest c) d (digest-IsAsked owner c tc) (
                shuffled (digest c) d
                  (subst (λ ds. Elem d ds) split (Elem-front d sent unsent e)))),
        )
  ]

  -- Let the codec read back what it wrote, the shuffle add nothing, the owners' states be well
  -- formed, and `b` and `c` keep copies of them. If `c` sends a packet of a round of gossip, `b`
  -- handles it, and `c`, in the same or a later state that keeps copies and has no lower
  -- versions, handles a packet that `b` sent in answer, then both keep copies; whatever the
  -- packet size cut off.
  pub round-Tracks :
      (b c c' : ClusterState) (node : NodeMetadata) (now now' : Time) (q p : Packet) {r : Sending}
      {rb rc : Handled}
      → ((ds : Digest) (d : DigestEntry) → Elem d (net.shuffle ds) → Elem d ds)
      → Tracks owner b
      → Tracks owner c
      → Tracks owner c'
      → ((id : GoString) → known_version c id ≤ known_version c' id)
      → gossip net c node ≡ some r
      → Elem q r.0
      → handle_packet net b now q.bytes ≡ some rb
      → Elem p rb.packets
      → handle_packet net c' now' p.bytes ≡ some rc
      → Tracks owner rb.state × Tracks owner rc.state
  round-Tracks b c c' node now now' q p {r} {rb} {rc} shuffled tb tc tc' later gossiped m handled m'
        taken =
      let (header, ds, read, asked) = gossip-IsAsked c node q tc shuffled gossiped m in
      let as_digest : handle_digest net b q.bytes ≡ some rb =
        sym (handle_packet-digest net b now q.bytes read) ∙ handled in
      let tb' : Tracks owner rb.state = handle_digest-Tracks b q.bytes {r = rb} tb as_digest in
      let answered : answer net rb.state header ds ≡ some (rb.packets, rb.error) =
        handle_digest-answer net b q.bytes read as_digest in
      (
        tb',
        handle_packet-Tracks rb.state c' now' p.bytes {r = rc} tb' tc'
            (λ h ds' read'.
              All-map _ _ ds' (λ d sent. Sent-later rb.state c c' d (later d.id) sent)
                (answer-Sent rb.state c header ds p tb' asked answered m' h ds' read'))
            taken,
      )
