-- ===== src/Gossip/Packets/Rejected.antt =====
-- pkg/gossip/listener.go: packets that are not a digest or a delta of the supported version.
use pico.Prelude.{◌≡◌, ◌≢◌, refl, ◌⊎◌, inl, inr, [], ◌∷◌, some, Bool-cases, arith, ◌==◌}
use pico.Gossip.Types.{Time, Digest, Delta}
use pico.Gossip.State.{ClusterState}
use pico.Gossip.Protocol.{
  Bytes, Error, digest_type, delta_type, supported_version, unsupported_version, unsupported_type,
  packet_too_small, decode_digest, decode_delta, ok, Result-cases, DigestHeader, DeltaHeader,
}
use pico.Gossip.Packets.{Network, handle_packet, failed, dispatch, handle_digest, handle_delta}

-- The packet starts as a digest or a delta of the supported version does.
abbrev pub IsSupported : Bytes → Type 0
IsSupported [] = ⊥
IsSupported (t ∷ []) = ⊥
IsSupported (t ∷ version ∷ b) =
    (version ≡ supported_version) × ((t ≡ digest_type) ⊎ (t ≡ delta_type))

module _ (net : Network) (s : ClusterState) (now : Time) where
  pub handle_packet-rejects :
      (packet : Bytes)
      → ¬ IsSupported packet
      → (e : Error) × (handle_packet net s now packet ≡ some (failed s e))
  unfolding handle_packet dispatch
  handle_packet-rejects [] bad = (packet_too_small 0, refl)
  handle_packet-rejects (t ∷ []) bad = (packet_too_small 1, refl)
  handle_packet-rejects (t ∷ version ∷ b) bad = elim (Bool-cases (version == supported_version)) [
    | inr other ↦ (unsupported_version version, ground (arith, other))
    | inl same ↦ elim (Bool-cases (t == digest_type)) [
      | inl digest ↦ absurd (bad (ground arith, inl (ground arith)))
      | inr no_digest ↦ elim (Bool-cases (t == delta_type)) [
        | inl delta ↦ absurd (bad (ground arith, inr (ground arith)))
        | inr no_delta ↦ (unsupported_type version, ground (arith, same, no_digest, no_delta))
      ]
    ]
  ]

  -- A packet that neither decodeDigest nor decodeDelta reads is an error of handlePacket: nothing
  -- is sent, and the state is as before.
  pub handle_packet-unread :
      (packet : Bytes)
      → ((h : DigestHeader) (ds : Digest) → decode_digest net.codec packet ≢ ok (h, ds))
      → ((h : DeltaHeader) (ds : Delta) → decode_delta net.codec packet ≢ ok (h, ds))
      → (e : Error) × (handle_packet net s now packet ≡ some (failed s e))
  unfolding handle_packet dispatch handle_digest handle_delta
  handle_packet-unread [] no_digest no_delta = (packet_too_small 0, refl)
  handle_packet-unread (t ∷ []) no_digest no_delta = (packet_too_small 1, refl)
  handle_packet-unread (t ∷ version ∷ b) no_digest no_delta =
      elim (Result-cases (decode_digest net.codec (t ∷ version ∷ b))) [
        | inl ((h, ds), read) ↦ absurd (no_digest h ds read)
        | inr (e, bad) ↦ elim (Result-cases (decode_delta net.codec (t ∷ version ∷ b))) [
          | inl ((h, ds), read) ↦ absurd (no_delta h ds read)
          | inr (e', bad') ↦ elim (Bool-cases (version == supported_version)) [
            | inr other ↦ (unsupported_version version, ground (arith, other))
            | inl same ↦ elim (Bool-cases (t == digest_type)) [
              | inl digest ↦ (e, ground (arith, same, digest, bad))
              | inr other ↦ elim (Bool-cases (t == delta_type)) [
                | inl delta ↦ (e', ground (arith, same, other, delta, bad'))
                | inr neither ↦ (unsupported_type version, ground (arith, same, other, neither))
              ]
            ]
          ]
        ]
      ]
