-- ===== src/Gossip/Packets/Safety.antt =====
-- pkg/gossip/listener.go and pkg/gossip/failuredetector.go: packets never make a node panic.
use pico.Prelude.{
  ◌<◌, ◌^◌, ◌≡◌, ◌∙◌, refl, sym, subst, inl, inr, [], ◌∷◌, none, some, Bool-cases, Option-cases,
  arith, GoString, lookup, insert, lookup-insert, ltb, ◌==◌, str_dec,
}
use pico.Gossip.Types.{Time, NodeState, Digest, Delta}
use pico.Gossip.Detector.{
  FailureDetector, ArrivalWindow, report, add_timestamp, time_sub, window_or_new,
  new_arrival_window,
}
use pico.Gossip.Windows.{IsRing, new_arrival_intervals-IsRing, add_interval-IsRing}
use pico.Gossip.State.{ClusterState, local_node_metadata}
use pico.Gossip.Apply.{apply_digest, apply_digest_entry, apply_delta, apply_delta_entry}
use pico.Gossip.System.Keeps.{apply_digest-keeps, apply_delta-keeps}
use pico.Gossip.Protocol.{
  Bytes, Result-cases, DigestHeader, decode_delta, decode_digest, digest_type, delta_type,
  supported_version, unsupported_version, unsupported_type, packet_too_small,
}
use pico.Gossip.Packets.{
  Network, Handled, handle_packet, handle_digest, handle_delta, dispatch, answer, send_delta,
  send_digest, Sending, failed,
}

time_sub-lt : (t u : Time) → time_sub t u < 2 ^ 64
time_sub-lt t u = ground arith

-- A window to which any timestamp can be added.
abbrev pub IsOpen : ArrivalWindow → Type 0
IsOpen w = IsRing w.intervals × (w.bootstrap_interval < 2 ^ 64)

-- A detector that takes any report.
pub record IsReporting (d : FailureDetector) : Type 0 where
  pub windows : (id : GoString) (w : ArrivalWindow) → lookup id d.windows ≡ some w → IsOpen w
  pub bootstrap : d.bootstrap_interval < 2 ^ 64
  pub room : 0 < d.sample_size

add_timestamp-IsOpen :
    (w : ArrivalWindow) (now : Time)
    → IsOpen w
    → (w' : ArrivalWindow) × (add_timestamp w now ≡ some w') × IsOpen w'
unfolding add_timestamp
add_timestamp-IsOpen w now (ring, small) = elim (Bool-cases (ltb 0 w.last_timestamp)) [
  | inl seen ↦
      let (i, added, ring', l, m, n, k) =
        add_interval-IsRing w.intervals (time_sub now w.last_timestamp) ring
          (time_sub-lt now w.last_timestamp) in
      (
        record w { intervals = i; last_timestamp = now },
        ground (arith, seen, added),
        (ring', small),
      )
  | inr fresh ↦
      let (i, added, ring', l, m, n, k) =
        add_interval-IsRing w.intervals w.bootstrap_interval ring small in
      (
        record w { intervals = i; last_timestamp = now },
        ground (arith, fresh, added),
        (ring', small),
      )
]

pub report-IsReporting :
    (d : FailureDetector) (id : GoString) (now : Time)
    → IsReporting d
    → (d' : FailureDetector) × (report d id now ≡ some d') × IsReporting d'
unfolding report new_arrival_window
report-IsReporting d id now h =
    let is_open : IsOpen (window_or_new d (lookup id d.windows)) =
      elim (Option-cases (lookup id d.windows)) [
        | inl missing ↦
            subst (λ o. IsOpen (window_or_new d o)) (sym missing)
              (new_arrival_intervals-IsRing d.sample_size h.room, h.bootstrap)
        | inr (w, found) ↦
            subst (λ o. IsOpen (window_or_new d o)) (sym found) (h.windows id w found)
      ] in
    let (w, added, opened) =
      add_timestamp-IsOpen (window_or_new d (lookup id d.windows)) now is_open in
    (
      record d { windows = insert id w d.windows },
      rw (report, added) refl,
      record {
        windows = λ j x found. elim (str_dec id j) [
          | yes p ↦
              let same : x ≡ w = ground (arith, found, lookup-insert id j w d.windows) in
              rw same opened
          | no ne ↦ h.windows j x (ground (arith, found, lookup-insert id j w d.windows))
        ];
        bootstrap = h.bootstrap;
        room = h.room;
      },
    )

-- Neither digests nor deltas touch the detector.
detector-apply_digest :
    (ds : Digest) (s : ClusterState) → (apply_digest s ds).0.failure_detector ≡ s.failure_detector
unfolding apply_digest apply_digest_entry
detector-apply_digest [] s = refl
detector-apply_digest (d ∷ ds) s =
    let one : (apply_digest_entry s d).0.failure_detector ≡ s.failure_detector = ground arith in
    detector-apply_digest ds (apply_digest_entry s d).0 ∙ one

detector-apply_delta :
    (ds : Delta) (s : ClusterState) (now : Time)
    → (apply_delta s now ds).0.failure_detector ≡ s.failure_detector
unfolding apply_delta apply_delta_entry
detector-apply_delta [] s now = refl
detector-apply_delta (d ∷ ds) s now =
    let one : (apply_delta_entry s now d).0.failure_detector ≡ s.failure_detector = ground arith in
    detector-apply_delta ds (apply_delta_entry s now d).0 now ∙ one

-- The node has its own state, and its detector takes any report.
pub record IsRunning (s : ClusterState) : Type 0 where
  pub local : NodeState
  pub own : lookup s.local_id s.nodes ≡ some local
  pub reporting : IsReporting s.failure_detector

module _ (net : Network) where
  answer-some :
      (s : ClusterState) (header : DigestHeader) (ds : Digest)
      → IsRunning s
      → (r : Sending) × (answer net s header ds ≡ some r)
  unfolding answer send_delta send_digest local_node_metadata
  answer-some s header ds h = elim (Option-cases (answer net s header ds)) [
    | inr (r, done) ↦ (r, done)
    | inl panics ↦ absurd (ground (arith, panics, h.own))
  ]

  apply_digest-IsRunning :
      (s : ClusterState) (ds : Digest) → IsRunning s → IsRunning (apply_digest s ds).0
  apply_digest-IsRunning s ds h =
      let (same, keeps) = apply_digest-keeps ds s in
      record {
        local = h.local;
        own = rw same (keeps s.local_id h.local h.own);
        reporting = rw (detector-apply_digest ds s) h.reporting;
      }

  apply_delta-IsRunning :
      (s : ClusterState) (now : Time) (ds : Delta)
      → IsRunning s
      → IsRunning (apply_delta s now ds).0
  apply_delta-IsRunning s now ds h =
      let (same, keeps) = apply_delta-keeps ds s now in
      record {
        local = h.local;
        own = rw same (keeps ∙ h.own);
        reporting = rw (detector-apply_delta ds s now) h.reporting;
      }

  handle_digest-IsRunning :
      (s : ClusterState) (b : Bytes)
      → IsRunning s
      → (r : Handled) × (handle_digest net s b ≡ some r) × IsRunning r.state
  unfolding handle_digest
  handle_digest-IsRunning s b h = elim (Result-cases (decode_digest net.codec b)) [
    | inr (e, bad) ↦ (failed s e, ground (arith, bad), h)
    | inl ((header, ds), read) ↦
        let running = apply_digest-IsRunning s ds h in
        let (sent, answered) = answer-some (apply_digest s ds).0 header ds running in
        (
          record {
            state = (apply_digest s ds).0;
            effects = (apply_digest s ds).1;
            packets = sent.0;
            error = sent.1;
          },
          ground (arith, read, answered),
          running,
        )
  ]

  handle_delta-IsRunning :
      (s : ClusterState) (now : Time) (b : Bytes)
      → IsRunning s
      → (r : Handled) × (handle_delta net s now b ≡ some r) × IsRunning r.state
  unfolding handle_delta
  handle_delta-IsRunning s now b h = elim (Result-cases (decode_delta net.codec b)) [
    | inr (e, bad) ↦ (failed s e, ground (arith, bad), h)
    | inl ((header, ds), read) ↦
        let (d, reported, reporting) =
          report-IsReporting s.failure_detector header.node_id now h.reporting in
        let s' : ClusterState = record s { failure_detector = d } in
        (
          record {
            state = (apply_delta s' now ds).0;
            effects = (apply_delta s' now ds).1;
            packets = [];
            error = none;
          },
          ground (arith, read, reported),
          apply_delta-IsRunning s' now ds
              (record { local = h.local; own = h.own; reporting = reporting }),
        )
  ]

  -- On a node that has its own state and whose detector has room and sound windows, handlePacket
  -- does not panic, whatever the bytes of the packet, and the node is such a node afterwards.
  pub handle_packet-IsRunning :
      (s : ClusterState) (now : Time) (b : Bytes)
      → IsRunning s
      → (r : Handled) × (handle_packet net s now b ≡ some r) × IsRunning r.state
  unfolding handle_packet dispatch
  handle_packet-IsRunning s now [] h = (failed s (packet_too_small 0), refl, h)
  handle_packet-IsRunning s now (t ∷ []) h = (failed s (packet_too_small 1), refl, h)
  handle_packet-IsRunning s now (t ∷ version ∷ b) h =
      elim (Bool-cases (version == supported_version)) [
        | inr other ↦ (failed s (unsupported_version version), ground (arith, other), h)
        | inl same ↦ elim (Bool-cases (t == digest_type)) [
          | inl is_digest ↦
              let (r, done, running) = handle_digest-IsRunning s (t ∷ version ∷ b) h in
              (r, ground (arith, same, is_digest, done), running)
          | inr other ↦ elim (Bool-cases (t == delta_type)) [
            | inl is_delta ↦
                let (r, done, running) = handle_delta-IsRunning s now (t ∷ version ∷ b) h in
                (r, ground (arith, same, other, is_delta, done), running)
            | inr neither ↦
                (failed s (unsupported_type version), ground (arith, same, other, neither), h)
          ]
        ]
      ]
