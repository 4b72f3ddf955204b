-- ===== src/Gossip/Streams/Messages.antt =====
-- pkg/gossip/listener.go and pkg/gossip/gossip.go: the messages of a stream, as bytes. A buffered
-- writer counts as written when it is flushed.
use pico.Prelude.{◌∷◌, ◌++◌}
use pico.Gossip.Types.{NodeMetadata, Digest, Delta}
use pico.Gossip.Protocol.{
  Bytes, Codec, Result, ok, ◌>>=◌, JoinHeader, decode_one, encoded, join_type, leave_type,
  supported_version,
}

abbrev pub join_header_of : NodeMetadata → JoinHeader
join_header_of local = record { node_id = local.id; addr = local.addr }

module _ (codec : Codec) where
  -- What `Gossip.join` writes.
  unfoldable pub join_request : NodeMetadata → Delta → Digest → Result Bytes
  join_request local local_delta digest = do
    header ← encoded (codec.join_header.encode (join_header_of local))
    deltas ← encoded (codec.delta.encode local_delta)
    digests ← encoded (codec.digest.encode digest)
    ok (join_type ∷ supported_version ∷ (header ++ (deltas ++ digests)))

  -- What `streamListener.join` reads after the first two bytes.
  unfoldable pub read_join : Bytes → Result (JoinHeader × Delta × Digest)
  unfolding decode_one
  read_join b = do
    header ← decode_one codec.join_header b
    deltas ← decode_one codec.delta header.1
    digests ← decode_one codec.digest deltas.1
    ok (header.0, deltas.0, digests.0)

  -- What `streamListener.join` writes.
  unfoldable pub join_reply : NodeMetadata → Delta → Result Bytes
  join_reply local delta = do
    header ← encoded (codec.join_header.encode (join_header_of local))
    deltas ← encoded (codec.delta.encode delta)
    ok (header ++ deltas)

  -- What `Gossip.join` reads; and `streamListener.leave`, whose header has the same fields.
  unfoldable pub read_header_and_delta : Bytes → Result (JoinHeader × Delta)
  unfolding decode_one
  read_header_and_delta b = do
    header ← decode_one codec.join_header b
    deltas ← decode_one codec.delta header.1
    ok (header.0, deltas.0)

  -- What `Gossip.leave` writes.
  unfoldable pub leave_request : NodeMetadata → Delta → Result Bytes
  leave_request local local_delta = do
    header ← encoded (codec.join_header.encode (join_header_of local))
    deltas ← encoded (codec.delta.encode local_delta)
    ok (leave_type ∷ supported_version ∷ (header ++ deltas))

  -- The acknowledgement that `streamListener.leave` writes.
  unfoldable pub leave_reply : NodeMetadata → Result Bytes
  leave_reply local = encoded (codec.join_header.encode (join_header_of local))
