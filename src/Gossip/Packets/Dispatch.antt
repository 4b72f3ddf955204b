-- ===== src/Gossip/Packets/Dispatch.antt =====
-- pkg/gossip/listener.go and pkg/gossip/state.go: what a packet is handled as.
use pico.Prelude.{
  ℕ, ◌≡◌, ◌∙◌, refl, sym, subst, inl, inr, [], ◌∷◌, none, some, Option-cases, arith, GoString, All,
}
use pico.Gossip.Types.{Time, NodeState, Digest, Delta}
use pico.Gossip.Detector.{FailureDetector, report}
use pico.Gossip.State.{ClusterState}
use pico.Gossip.Delta.{digest, delta}
use pico.Gossip.Apply.{apply_digest, apply_delta}
use pico.Gossip.Sync.{WellFormed}
use pico.Gossip.Sync.Nodes.{Tracks, Sent, apply_delta-Tracks}
use pico.Gossip.Protocol.{
  Bytes, Codec, IsCodec, ok, Result-cases, DeltaHeader, DigestHeader, read_start, digest_type,
  decode_delta, decode_digest, delta_type, supported_version,
}
use pico.Gossip.Packets.{
  Network, Handled, handle_packet, handle_digest, handle_delta, dispatch, answer,
}

-- The detector of a state is no part of its copies.
pub Tracks-detector :
    (owner : GoString → NodeState) (s : ClusterState) (d : FailureDetector)
    → Tracks owner s
    → Tracks owner (record s { failure_detector = d })
Tracks-detector owner s d t = record { copies = t.copies; distinct = t.distinct; ids = t.ids }

pub Sent-detector :
    (b s : ClusterState) (d : FailureDetector) (ds : Delta)
    → All (Sent b s) ds
    → All (Sent b (record s { failure_detector = d })) ds
Sent-detector b s d [] h = tt
Sent-detector b s d (x ∷ ds) (h, hs) = (
  record {
    state = h.state;
    held = h.held;
    from_version = h.from_version;
    asked = h.asked;
    unsent = h.unsent;
    split = h.split;
  },
  Sent-detector b s d ds hs,
)

module _ (net : Network) (laws : IsCodec net.codec) (owner : GoString → NodeState)
    (well : (id : GoString) → WellFormed (owner id)) where
  -- A delta packet in which all is a front part of what `b` holds for what `s` has.
  pub handle_delta-Tracks :
      (b s : ClusterState) (now : Time) (packet : Bytes) (header : DeltaHeader) (ds : Delta)
      (d : FailureDetector)
      → Tracks owner b
      → Tracks owner s
      → All (Sent b s) ds
      → decode_delta net.codec packet ≡ ok (header, ds)
      → report s.failure_detector header.node_id now ≡ some d
      → (r : Handled) × (handle_delta net s now packet ≡ some r)
        × (r.error ≡ none)
        × Tracks owner r.state
  unfolding handle_delta
  handle_delta-Tracks b s now packet header ds d tb ts sent read reported =
      let s' : ClusterState = record s { failure_detector = d } in
      let r : Handled = record {
        state = (apply_delta s' now ds).0;
        effects = (apply_delta s' now ds).1;
        packets = [];
        error = none;
      } in
      (
        r,
        ground (arith, read, reported),
        refl,
        apply_delta-Tracks owner well b tb ds s' now (Tracks-detector owner s d ts)
            (Sent-detector b s d ds sent),
      )

pub read_start-ok :
    (m t version : ℕ) (b : Bytes) {rest : Bytes}
    → read_start m (t ∷ version ∷ b) ≡ ok rest
    → (t ≡ m) × (version ≡ supported_version)
unfolding read_start
read_start-ok m t version b done = (ground (arith, done), ground (arith, done))

pub delta_start :
    (codec : Codec) (t version : ℕ) (b : Bytes) {x : DeltaHeader × Delta}
    → decode_delta codec (t ∷ version ∷ b) ≡ ok x
    → (t ≡ delta_type) × (version ≡ supported_version)
unfolding decode_delta
delta_start codec t version b read = elim (Result-cases (read_start delta_type (t ∷ version ∷ b))) [
  | inl (rest, started) ↦ read_start-ok delta_type t version b started
  | inr (e, bad) ↦ absurd (ground (arith, read, bad))
]

pub digest_start :
    (codec : Codec) (t version : ℕ) (b : Bytes) {x : DigestHeader × Digest}
    → decode_digest codec (t ∷ version ∷ b) ≡ ok x
    → (t ≡ digest_type) × (version ≡ supported_version)
unfolding decode_digest
digest_start codec t version b read =
    elim (Result-cases (read_start digest_type (t ∷ version ∷ b))) [
      | inl (rest, started) ↦ read_start-ok digest_type t version b started
      | inr (e, bad) ↦ absurd (ground (arith, read, bad))
    ]

module _ (net : Network) (s : ClusterState) (now : Time) where
  -- A packet that decodes as a delta is handled as one.
  pub handle_packet-delta :
      (b : Bytes) {x : DeltaHeader × Delta}
      → decode_delta net.codec b ≡ ok x
      → handle_packet net s now b ≡ handle_delta net s now b
  unfolding handle_packet dispatch decode_delta read_start
  handle_packet-delta [] read = absurd (ground (arith, read))
  handle_packet-delta (t ∷ []) read = absurd (ground (arith, read))
  handle_packet-delta (t ∷ version ∷ b) read =
      let (type, same) = delta_start net.codec t version b read in rw (type, same) refl

  pub handle_packet-digest :
      (b : Bytes) {x : DigestHeader × Digest}
      → decode_digest net.codec b ≡ ok x
      → handle_packet net s now b ≡ handle_digest net s b
  unfolding handle_packet dispatch decode_digest read_start
  handle_packet-digest [] read = absurd (ground (arith, read))
  handle_packet-digest (t ∷ []) read = absurd (ground (arith, read))
  handle_packet-digest (t ∷ version ∷ b) read =
      let (type, same) = digest_start net.codec t version b read in rw (type, same) refl

-- No packet is both.
pub not_both :
    (codec : Codec) (b : Bytes) {x : DigestHeader × Digest} {y : DeltaHeader × Delta}
    → decode_digest codec b ≡ ok x
    → ¬ (decode_delta codec b ≡ ok y)
unfolding decode_delta decode_digest read_start
not_both codec [] read read' = absurd (ground (arith, read))
not_both codec (t ∷ []) read read' = absurd (ground (arith, read))
not_both codec (t ∷ version ∷ b) read read' =
    let (digest, _) = digest_start codec t version b read in
    let (delta, _) = delta_start codec t version b read' in absurd (ground (arith, digest, delta))

-- What is sent is the answer of the state afterwards.
pub handle_digest-answer :
    (net : Network) (s : ClusterState) (packet : Bytes) {h : DigestHeader} {ds : Digest}
    {r : Handled}
    → decode_digest net.codec packet ≡ ok (h, ds)
    → handle_digest net s packet ≡ some r
    → answer net r.state h ds ≡ some (r.packets, r.error)
unfolding handle_digest
handle_digest-answer net s packet {h} {ds} {r} read done =
    elim (Option-cases (answer net (apply_digest s ds).0 h ds)) [
      | inl panics ↦ absurd (ground (arith, done, read, panics))
      | inr (sent, answered) ↦
          let same : r.state ≡ (apply_digest s ds).0 = ground (arith, done, read, answered) in
          let packets : r.packets ≡ sent.0 = ground (arith, done, read, answered) in
          let error : r.error ≡ sent.1 = ground (arith, done, read, answered) in
          let all : some sent ≡ some (r.packets, r.error) = cc (packets, error) in
          subst (λ x. answer net x h ds ≡ some (r.packets, r.error)) (sym same) (answered ∙ all)
    ]

pub handle_delta-panics :
    (net : Network) (s : ClusterState) (now : Time) (packet : Bytes) {h : DeltaHeader} {ds : Delta}
    → decode_delta net.codec packet ≡ ok (h, ds)
    → report s.failure_detector h.node_id now ≡ none
    → handle_delta net s now packet ≡ none
unfolding handle_delta
handle_delta-panics net s now packet read panics = ground (arith, read, panics)
