-- ===== src/Gossip/Protocol/Arrival.antt =====
-- pkg/gossip/protocol.go: a packet that was encoded, decoded.
use pico.Prelude.{
  ℕ, zero, suc, ◌≤◌, ◌<◌, ◌≡◌, ◌∙◌, refl, ap, ◌⊎◌, inl, inr, List, [], ◌∷◌, ◌++◌, some, length,
  length-append, append_assoc, arith, Option-cases,
}
use pico.Gossip.Types.{Entry, Digest, DeltaEntry, Delta}
use pico.Gossip.Protocol.{
  Bytes, Format, IsFormat, IsCodec, Codec, Buffer, ok, take, marked, append_all, append_delta,
  delta_header_of, Result-cases, DigestHeader, DeltaHeader, start_packet, encode_digest,
  encode_delta, decode_digest, decode_delta, read_start, decode_one, read_digest, read_entries,
  read_delta, digest_type, delta_type, supported_version,
}
use pico.Gossip.Protocol.Packing.{Written, append_all-Packed, length-take}
use pico.Gossip.Protocol.Parts.{Front, Carries, append_delta-Packed, IsPart, Carries-IsPart}

-- Every value takes bytes.
encode-lt :
    {A : Type 0} (f : Format A) (laws : IsFormat f) (a : A) (b rest : Bytes)
    → f.encode a ≡ some b
    → length rest < length (b ++ rest)
encode-lt f laws a b rest wrote =
    laws.decode-lt (b ++ rest) rest a (laws.decode-encode a b rest wrote)

read_start-same : (t : ℕ) (b : Bytes) → read_start t (t ∷ supported_version ∷ b) ≡ ok b
unfolding read_start
read_start-same t b = ground arith

read_start-cut :
    (t : ℕ) (packet : Bytes) {b : Bytes}
    → packet ≡ t ∷ supported_version ∷ b
    → read_start t packet ≡ ok b
read_start-cut t packet {b} cut = rw cut (read_start-same t b)

-- What a started packet holds.
start_packet-marked :
    {A : Type 0} (f : Format A) (t : ℕ) (header : A) (max : ℕ) {buf : Buffer}
    → start_packet f t header max ≡ ok buf
    → (h : Bytes) × (f.encode header ≡ some h)
      × (buf ≡ marked (t ∷ supported_version ∷ h))
      × (length (t ∷ supported_version ∷ h) ≤ max)
unfolding start_packet
start_packet-marked f t header max {buf} done = elim (Option-cases (f.encode header)) [
  | inl failed ↦ absurd (ground (arith, done, failed))
  | inr (h, wrote) ↦ (h, wrote, ground (arith, done, wrote), ground (arith, done, wrote))
]

-- The header of a packet, read back.
decode_one-written :
    {A : Type 0} (f : Format A) (laws : IsFormat f) (a : A) (b rest : Bytes)
    → f.encode a ≡ some b
    → decode_one f (b ++ rest) ≡ ok (a, rest)
unfolding decode_one
decode_one-written f laws a b rest wrote = rw (decode_one, laws.decode-encode a b rest wrote) refl

module _ (codec : Codec) (laws : IsCodec codec) where
  read_digest-Written :
      (ds : Digest) (b : Bytes) (fuel : ℕ)
      → length b < fuel
      → Written codec.digest_entry ds b
      → read_digest codec fuel b ≡ ok ds
  unfolding read_digest
  read_digest-Written ds b zero lt w = absurd (omega (arith, lt))
  read_digest-Written [] b (suc fuel) lt w = rw (w, read_digest, laws.digest_entry.decode-end) refl
  read_digest-Written (d ∷ ds) b (suc fuel) lt (e, rest, wrote, split, w) =
      let shorter = encode-lt codec.digest_entry laws.digest_entry d e rest wrote in
      let ih = read_digest-Written ds rest fuel (ground (arith, shorter, split, lt)) w in
      rw (split, read_digest, laws.digest_entry.decode-encode d e rest wrote, ih) refl

  read_entries-Written :
      (es unsent : List Entry) (b rest : Bytes)
      → Written codec.entry es b
      → (unsent ≡ []) ⊎ (rest ≡ [])
      → read_entries codec (length (es ++ unsent)) (b ++ rest) ≡ ok (es, rest)
  unfolding read_entries
  read_entries-Written [] [] b rest w e = rw w refl
  read_entries-Written [] (u ∷ unsent) b rest w (inl empty) = absurd (ground arith)
  read_entries-Written [] (u ∷ unsent) b rest w (inr over) =
      rw (w, over, read_entries, laws.entry.decode-end) refl
  read_entries-Written (e ∷ es) unsent b rest (x, more, wrote, split, w) last =
      let ih = read_entries-Written es unsent more rest w last in
      rw
        (
          split,
          append_assoc x more rest,
          read_entries,
          laws.entry.decode-encode e x (more ++ rest) wrote,
          ih,
        )
        refl

  -- A node's part at the front of the bytes.
  read_delta-Front :
      (d d' : DeltaEntry) (ds' : Delta) (header entries rest : Bytes) (fuel : ℕ)
      → codec.delta_header.encode (delta_header_of d) ≡ some header
      → Written codec.entry d'.entries entries
      → (p : Front d d') → (p.unsent ≡ []) ⊎ (rest ≡ [])
      → read_delta codec fuel rest ≡ ok ds'
      → read_delta codec (suc fuel) (header ++ (entries ++ rest)) ≡ ok (d' ∷ ds')
  unfolding read_delta
  read_delta-Front d d' ds' header entries rest fuel wrote w p last others =
      let read =
        laws.delta_header.decode-encode (delta_header_of d) header (entries ++ rest) wrote in
      let inner : read_entries codec (length d.entries) (entries ++ rest) ≡ ok (d'.entries, rest) =
        rw (← p.split) (read_entries-Written d'.entries p.unsent entries rest w last) in
      rw (read_delta, read, inner, others, p.same_id, p.same_addr) refl

  read_delta-Carries :
      (ds ds' : Delta) (b : Bytes) (fuel : ℕ)
      → length b < fuel
      → Carries codec ds ds' b
      → read_delta codec fuel b ≡ ok ds'
  unfolding read_delta
  read_delta-Carries ds ds' b zero lt c = absurd (omega (arith, lt))
  read_delta-Carries ds [] b (suc fuel) lt c = rw (c, read_delta, laws.delta_header.decode-end) refl
  read_delta-Carries [] (d' ∷ ds') b (suc fuel) lt c = absurd c
  read_delta-Carries (d ∷ ds) (d' ∷ ds') b (suc fuel) lt
        (header, entries, rest, wrote, split, w, p, next) =
      let shorter =
        encode-lt codec.delta_header laws.delta_header (delta_header_of d) header (entries ++ rest)
          wrote in
      let fits : length rest < fuel =
        ground (arith, shorter, length-append entries rest, ap length split, lt) in
      elim next [
        | inl (whole, more) ↦ rw split (
            read_delta-Front d d' ds' header entries rest fuel wrote w p (inl whole)
              (read_delta-Carries ds ds' rest fuel fits more))
        | inr (nothing, over) ↦ rw split (
            read_delta-Front d d' ds' header entries rest fuel wrote w p (inr over)
              (rw nothing (read_delta-Carries ds [] rest fuel fits over)))
      ]

  -- If the codec reads back what it wrote and encodeDigest gives a packet, then the packet fits
  -- the size, and decodeDigest reads from it the header and a front part of the digest.
  pub decode_digest-encode_digest :
      (header : DigestHeader) (ds : Digest) (max : ℕ) (packet : Bytes)
      → encode_digest codec header ds max ≡ ok packet
      → (sent : Digest) × (unsent : Digest) × (sent ++ unsent ≡ ds)
        × (length packet ≤ max)
        × (decode_digest codec packet ≡ ok (header, sent))
  unfolding encode_digest decode_digest
  decode_digest-encode_digest header ds max packet done =
      elim (Result-cases (start_packet codec.digest_header digest_type header max)) [
        | inr (e, failed) ↦ absurd (ground (arith, done, failed))
        | inl (buf, started) ↦
            let (h, wrote, same, fits) =
              start_packet-marked codec.digest_header digest_type header max started in
            let start = digest_type ∷ supported_version ∷ h in
            elim (Result-cases (append_all codec.digest_entry max ds (marked start))) [
              | inr (e, failed) ↦ absurd (ground (arith, done, started, same, failed))
              | inl (r, packed) ↦
                  let p = append_all-Packed codec.digest_entry max ds start fits packed in
                  let at : packet ≡ take r.len r.bytes =
                    ground (arith, done, started, same, packed) in
                  let cut : packet ≡ start ++ p.added = at ∙ p.cut in
                  let shorter = length-append start p.added in
                  let reads =
                    read_digest-Written p.sent p.added (suc (length packet))
                      (rw cut (omega (arith, shorter))) p.written in
                  (
                    p.sent,
                    p.unsent,
                    p.split,
                    rw at (ground (arith, length-take r.len r.bytes, p.fits)),
                    rw
                        (
                          decode_digest,
                          read_start-cut digest_type packet cut,
                          decode_one-written codec.digest_header laws.digest_header header h p.added
                              wrote,
                          reads,
                        )
                        refl,
                  )
            ]
      ]

  -- If the codec reads back what it wrote and encodeDelta gives a packet, then the packet fits
  -- the size, and decodeDelta reads from it the header and a front part of the delta: whole nodes
  -- in order, and at most one more with a front part of its entries.
  pub decode_delta-encode_delta :
      (header : DeltaHeader) (ds : Delta) (max : ℕ) (packet : Bytes)
      → encode_delta codec header ds max ≡ ok packet
      → (sent : Delta) × IsPart ds sent
        × (length packet ≤ max)
        × (decode_delta codec packet ≡ ok (header, sent))
  unfolding encode_delta decode_delta
  decode_delta-encode_delta header ds max packet done =
      elim (Result-cases (start_packet codec.delta_header delta_type header max)) [
        | inr (e, failed) ↦ absurd (ground (arith, done, failed))
        | inl (buf, started) ↦
            let (h, wrote, same, fits) =
              start_packet-marked codec.delta_header delta_type header max started in
            let start = delta_type ∷ supported_version ∷ h in
            elim (Result-cases (append_delta codec max ds (marked start))) [
              | inr (e, failed) ↦ absurd (ground (arith, done, started, same, failed))
              | inl (r, packed) ↦
                  let p = append_delta-Packed codec max ds start fits packed in
                  let at : packet ≡ take r.len r.bytes =
                    ground (arith, done, started, same, packed) in
                  let cut : packet ≡ start ++ p.added = at ∙ p.cut in
                  let shorter = length-append start p.added in
                  let reads =
                    read_delta-Carries ds p.sent p.added (suc (length packet))
                      (rw cut (omega (arith, shorter))) p.carries in
                  (
                    p.sent,
                    Carries-IsPart codec ds p.sent p.added p.carries,
                    rw at (ground (arith, length-take r.len r.bytes, p.fits)),
                    rw
                        (
                          decode_delta,
                          read_start-cut delta_type packet cut,
                          decode_one-written codec.delta_header laws.delta_header header h p.added
                              wrote,
                          reads,
                        )
                        refl,
                  )
            ]
      ]
