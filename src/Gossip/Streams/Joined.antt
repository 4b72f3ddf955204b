-- ===== src/Gossip/Streams/Joined.antt =====
-- pkg/gossip/gossip.go and pkg/gossip/listener.go: both sides of a join.
use pico.Prelude.{
  ◌≤◌, ◌≡◌, ◌∙◌, refl, sym, subst, inl, inr, [], ◌∷◌, ◌++◌, some, true, Option-cases, arith,
  GoString, lookup, All, append-nil,
}
use pico.Gossip.Types.{Time, NodeState, NodeMetadata, Digest, Delta}
use pico.Gossip.State.{ClusterState, local_node_metadata}
use pico.Gossip.Delta.{digest, delta, local_delta, delta_entry}
use pico.Gossip.Apply.{apply_digest, apply_delta}
use pico.Gossip.Sync.{WellFormed}
use pico.Gossip.Sync.Nodes.{
  Tracks, Sent, apply_digest-Tracks, apply_delta-Tracks, known_version, Sent-later, All-map,
}
use pico.Gossip.Sync.Asked.{digest-IsAsked, delta-Sent, delta_entry-Sent}
use pico.Gossip.Protocol.{
  Bytes, Codec, IsCodec, IsFormat, Format, Result, ok, err, JoinHeader, decode_one, join_type,
  supported_version,
}
use pico.Gossip.Streams.Messages.{
  join_request, read_join, join_reply, read_header_and_delta, join_header_of,
}
use pico.Gossip.Streams.{StreamNetwork, Served, handle_conn, serve_join, read_joined, flushed}

-- A value that was written, read back.
decode_one-encode :
    {A : Type 0} (f : Format A) (laws : IsFormat f) (a : A) (b rest : Bytes)
    → f.encode a ≡ some b
    → decode_one f (b ++ rest) ≡ ok (a, rest)
unfolding decode_one
decode_one-encode f laws a b rest wrote = rw (decode_one, laws.decode-encode a b rest wrote) refl

module _ (codec : Codec) (laws : IsCodec codec) where
  pub read_join-request :
      (local : NodeMetadata) (ds : Delta) (digests : Digest) {b : Bytes}
      → join_request codec local ds digests ≡ ok b
      → (rest : Bytes) × (b ≡ join_type ∷ supported_version ∷ rest)
        × (read_join codec rest ≡ ok (join_header_of local, ds, digests))
  unfolding join_request read_join
  read_join-request local ds digests {b} done =
      elim (Option-cases (codec.join_header.encode (join_header_of local))) [
        | inl failed ↦ absurd (ground (arith, done, failed))
        | inr (h, wrote) ↦ elim (Option-cases (codec.delta.encode ds)) [
          | inl failed ↦ absurd (ground (arith, done, wrote, failed))
          | inr (m, wrote') ↦ elim (Option-cases (codec.digest.encode digests)) [
            | inl failed ↦ absurd (ground (arith, done, wrote, wrote', failed))
            | inr (d, wrote'') ↦
                let first =
                  decode_one-encode codec.join_header laws.join_header (join_header_of local) h
                    (m ++ d) wrote in
                let second = decode_one-encode codec.delta laws.delta ds m d wrote' in
                let third = decode_one-encode codec.digest laws.digest digests d [] wrote'' in
                let third' : decode_one codec.digest d ≡ ok (digests, []) =
                  subst (λ x. decode_one codec.digest x ≡ ok (digests, [])) (append-nil d) third in
                (
                  h ++ (m ++ d),
                  ground (arith, done, wrote, wrote', wrote''),
                  rw (read_join, first, second, third') refl,
                )
          ]
        ]
      ]

  -- A header and a delta, as a reply to a join and after the type of a leave.
  read_header_and_delta-written :
      (header : JoinHeader) (ds : Delta) (h m : Bytes)
      → codec.join_header.encode header ≡ some h
      → codec.delta.encode ds ≡ some m
      → read_header_and_delta codec (h ++ m) ≡ ok (header, ds)
  unfolding read_header_and_delta
  read_header_and_delta-written header ds h m wrote wrote' =
      let first = decode_one-encode codec.join_header laws.join_header header h m wrote in
      let second = decode_one-encode codec.delta laws.delta ds m [] wrote' in
      let second' : decode_one codec.delta m ≡ ok (ds, []) =
        subst (λ x. decode_one codec.delta x ≡ ok (ds, [])) (append-nil m) second in
      rw (read_header_and_delta, first, second') refl

  pub read_header_and_delta-reply :
      (local : NodeMetadata) (ds : Delta) {b : Bytes}
      → join_reply codec local ds ≡ ok b
      → read_header_and_delta codec b ≡ ok (join_header_of local, ds)
  unfolding join_reply
  read_header_and_delta-reply local ds {b} done =
      elim (Option-cases (codec.join_header.encode (join_header_of local))) [
        | inl failed ↦ absurd (ground (arith, done, failed))
        | inr (h, wrote) ↦ elim (Option-cases (codec.delta.encode ds)) [
          | inl failed ↦ absurd (ground (arith, done, wrote, failed))
          | inr (m, wrote') ↦
              let same : b ≡ h ++ m = ground (arith, done, wrote, wrote') in
              rw same (read_header_and_delta-written (join_header_of local) ds h m wrote wrote')
        ]
      ]

-- The whole own state, as it is sent on a join or a leave.
local_delta-Sent :
    (owner : GoString → NodeState) (c s : ClusterState) {ds : Delta}
    → Tracks owner c
    → local_delta c ≡ some ds
    → All (Sent c s) ds
unfolding local_delta
local_delta-Sent owner c s {ds} tc made = elim (Option-cases (lookup c.local_id c.nodes)) [
  | inl missing ↦ absurd (ground (arith, made, missing))
  | inr (n, found) ↦
      let same : ds ≡ delta_entry n 0 ∷ [] = ground (arith, made, found) in
      rw same (delta_entry-Sent owner c s tc c.local_id n 0 found (omega arith), tt)
]

flushed-ok : (net : StreamNetwork) (x : Result Bytes) {b : Bytes} → flushed net x ≡ ok b → x ≡ ok b
flushed-ok net (err e) done = absurd (ground (arith, done))
flushed-ok net (ok x) done = ground (arith, done)

module _ (net : StreamNetwork) (laws : IsCodec net.codec) (owner : GoString → NodeState)
    (well : (id : GoString) → WellFormed (owner id)) (c s : ClusterState) (tc : Tracks owner c)
    (ts : Tracks owner s) (local : NodeMetadata) {own : Delta} (made : local_delta c ≡ some own)
    {request : Bytes} (asked : join_request net.codec local own (digest c) ≡ ok request)
    (now : Time) {r : Served} (served : handle_conn net s now request ≡ some r) where
  after : ClusterState
  after = (apply_digest (apply_delta s now own).0 (digest c)).0

  -- The listener takes in the joining node's own state and digest.
  served_state :
      (host : NodeMetadata) × (local_node_metadata after ≡ some host)
      × (r.state ≡ after)
      × (r.reply ≡ flushed net (join_reply net.codec host (delta after (digest c) true)))
  unfolding handle_conn serve_join after
  served_state =
      let (rest, starts, read) = read_join-request net.codec laws local own (digest c) asked in
      elim (Option-cases (local_node_metadata after)) [
        | inl missing ↦ absurd (ground (arith, served, starts, read, missing))
        | inr (host, found) ↦ (
          host,
          found,
          ground (arith, served, starts, read, found),
          ground (arith, served, starts, read, found),
        )
      ]

  after-Tracks : Tracks owner after
  unfolding after
  after-Tracks =
      apply_digest-Tracks owner well (digest c) (apply_delta s now own).0
        (apply_delta-Tracks owner well c tc own s now ts (local_delta-Sent owner c s tc made))

  -- Let the codec read back what it wrote, the owners' states be well formed, and `c` and `s`
  -- keep copies of them. If `s` serves the join request of `c` and writes a reply, and `c`, in
  -- the same or a later state that keeps copies and has no lower versions, reads it, then both
  -- keep copies, and the join gives the ID of `s`.
  pub join-Tracks :
      (c' : ClusterState) (now' : Time) (reply : Bytes)
      → Tracks owner c'
      → ((id : GoString) → known_version c id ≤ known_version c' id)
      → r.reply ≡ ok reply
      → Tracks owner r.state
        × Tracks owner (read_joined net c' now' reply).0
        × (host : NodeMetadata) × (local_node_metadata r.state ≡ some host)
        × ((read_joined net c' now' reply).2 ≡ ok host.id)
  unfolding read_joined
  join-Tracks c' now' reply tc' later replied =
      let (host, found, state, wrote) = served_state in
      let ds = delta after (digest c) true in
      let sent : join_reply net.codec host ds ≡ ok reply =
        flushed-ok net (join_reply net.codec host ds) (sym wrote ∙ replied) in
      let read = read_header_and_delta-reply net.codec laws host ds sent in
      let parts : All (Sent after c') ds =
        All-map _ _ ds (λ d x. Sent-later after c c' d (later d.id) x)
          (delta-Sent owner after c after-Tracks (digest c) true (digest-IsAsked owner c tc)) in
      let t = apply_delta-Tracks owner well after after-Tracks ds c' now' tc' parts in
      (
        rw state after-Tracks,
        rw (read_joined, read) t,
        host,
        rw state found,
        rw (read_joined, read) refl,
      )
