-- ===== src/Gossip/Protocol/Parts.antt =====
-- pkg/gossip/protocol.go: the part of a delta that a packet carries.
use pico.Prelude.{
  ℕ, ◌≤◌, ◌<◌, ◌≡◌, ◌∙◌, refl, ap, ◌⊎◌, inl, inr, List, [], ◌∷◌, ◌++◌, some, ltb, length,
  length-append, append_assoc, append-nil, arith, Option-cases, Bool-cases,
}
use pico.Gossip.Types.{Entry, DeltaEntry, Delta}
use pico.Gossip.Protocol.{
  Bytes, Codec, Buffer, ok, take, marked, append_all, append_delta, delta_header_of, Result-cases,
}
use pico.Gossip.Protocol.Packing.{
  take-append, take-append_le, take-all, Written, Packed, append_all-Packed,
}

-- A front part of what is sent for a node.
pub record Front (d d' : DeltaEntry) : Type 0 where
  pub same_id : d'.id ≡ d.id
  pub same_addr : d'.addr ≡ d.addr
  pub unsent : List Entry
  pub split : d'.entries ++ unsent ≡ d.entries

abbrev pub front : DeltaEntry → List Entry → DeltaEntry
front d sent = record d { entries = sent }

module _ (codec : Codec) where
  -- The bytes of a delta of which only the second is sent: each node's header counts all its
  -- entries, and only the last node's entries may be cut short.
  abbrev pub Carries : Delta → Delta → Bytes → Type 0
  Carries ds [] b = b ≡ []
  Carries [] (d' ∷ ds') b = ⊥
  Carries (d ∷ ds) (d' ∷ ds') b =
      (header : Bytes) × (entries : Bytes) × (rest : Bytes) × (codec.delta_header.encode
          (delta_header_of d)
        ≡ some header)
      × (b ≡ header ++ (entries ++ rest))
      × Written codec.entry d'.entries entries
      × (p : Front d d') × (((p.unsent ≡ []) × Carries ds ds' rest) ⊎ ((ds' ≡ []) × (rest ≡ [])))

  pub record PackedDelta (max : ℕ) (ds : Delta) (b : Bytes) (r : Buffer) : Type 0 where
    pub sent : Delta
    pub added : Bytes
    pub carries : Carries ds sent added
    pub cut : take r.len r.bytes ≡ b ++ added
    pub fits : r.len ≤ max

  -- Once the packet is full, nothing more is sent.
  append_delta-full :
      (max : ℕ) (ds : Delta) (buf : Buffer) {r : Buffer}
      → max < length buf.bytes
      → buf.len ≤ max
      → append_delta codec max ds buf ≡ ok r
      → (take r.len r.bytes ≡ take buf.len buf.bytes) × (r.len ≤ max)
  unfolding append_delta
  append_delta-full max [] buf {r} full le done =
      let same : r ≡ buf = cc in (rw same refl, rw same le)
  append_delta-full max (d ∷ ds) buf {r} full le done =
      elim (Option-cases (codec.delta_header.encode (delta_header_of d))) [
        | inl failed ↦ absurd (ground (arith, done, failed))
        | inr (b, wrote) ↦
            let longer = length-append buf.bytes b in
            let same : r ≡ record { bytes = buf.bytes ++ b; len = buf.len } =
              ground (arith, done, wrote, longer, full) in
            (rw same (take-append_le buf.len buf.bytes b (omega (arith, full, le))), rw same le)
      ]

  -- One node's part, and what follows for the others.
  Packed-one :
      (max : ℕ) (d : DeltaEntry) (ds : Delta) (b header : Bytes) {buf r : Buffer}
      → codec.delta_header.encode (delta_header_of d) ≡ some header
      → Packed codec.entry max d.entries (b ++ header) buf
      → ((b' : Bytes)
          → length b' ≤ max
          → append_delta codec max ds (marked b') ≡ ok r
          → PackedDelta max ds b' r)
      → append_delta codec max ds buf ≡ ok r
      → PackedDelta max (d ∷ ds) b r
  Packed-one max d ds b header {buf} {r} wrote p others done =
      let shift : (c : Bytes) → (b ++ header) ++ c ≡ b ++ (header ++ c) = append_assoc b header in
      elim p.whole_or_full [
        | inl (all, same) ↦
            let here = (b ++ header) ++ p.added in
            let rest : PackedDelta max ds here r =
              others here (rw (← ap (λ (x : Buffer). x.len) same) p.fits) (rw (← same) done) in
            record {
              sent = d ∷ rest.sent;
              added = header ++ (p.added ++ rest.added);
              carries = (
                header,
                p.added,
                rest.added,
                wrote,
                refl,
                rw (← all) p.written,
                record {
                  same_id = refl;
                  same_addr = refl;
                  unsent = [];
                  split = append-nil d.entries;
                },
                inl (refl, rest.carries),
              );
              cut =
                  rest.cut
                  ∙ append_assoc (b ++ header) p.added rest.added
                  ∙ shift (p.added ++ rest.added);
              fits = rest.fits;
            }
        | inr full ↦
            let (cut, fits) = append_delta-full max ds buf full p.fits done in
            record {
              sent = front d p.sent ∷ [];
              added = header ++ (p.added ++ []);
              carries = (
                header,
                p.added,
                [],
                wrote,
                refl,
                p.written,
                record { same_id = refl; same_addr = refl; unsent = p.unsent; split = p.split },
                inr (refl, refl),
              );
              cut = rw append-nil (cut ∙ p.cut ∙ shift p.added);
              fits = fits;
            }
      ]

  pub append_delta-Packed :
      (max : ℕ) (ds : Delta) (b : Bytes) {r : Buffer}
      → length b ≤ max
      → append_delta codec max ds (marked b) ≡ ok r
      → PackedDelta max ds b r
  unfolding append_delta
  append_delta-Packed max [] b {r} le done =
      let same : r ≡ marked b = cc in
      record {
        sent = [];
        added = [];
        carries = refl;
        cut = rw (same, append-nil) (take-all b);
        fits = rw same le;
      }
  append_delta-Packed max (d ∷ ds) b {r} le done =
      elim (Option-cases (codec.delta_header.encode (delta_header_of d))) [
        | inl failed ↦ absurd (ground (arith, done, failed))
        | inr (header, wrote) ↦ elim (Bool-cases (ltb max (length (b ++ header)))) [
          | inl over ↦
              let same : r ≡ record { bytes = b ++ header; len = length b } =
                ground (arith, done, wrote, over) in
              record {
                sent = [];
                added = [];
                carries = refl;
                cut = rw (same, append-nil) (take-append b header);
                fits = rw same le;
              }
          | inr room ↦
              elim (Result-cases (append_all codec.entry max d.entries (marked (b ++ header)))) [
                | inr (e, failed) ↦ absurd (ground (arith, done, wrote, room, failed))
                | inl (buf, packed) ↦
                    let after : append_delta codec max ds buf ≡ ok r =
                      ground (arith, done, wrote, room, packed) in
                    Packed-one max d ds b header wrote
                      (append_all-Packed codec.entry max d.entries (b ++ header)
                        (ground (arith, room)) packed)
                      (λ b' fits rest. append_delta-Packed max ds b' fits rest) after
              ]
        ]
      ]

-- The second delta is a front part of the first: whole nodes in order, and at most one more whose
-- entries are cut short.
abbrev pub IsPart : Delta → Delta → Type 0
IsPart ds [] = Unit
IsPart [] (d' ∷ ds') = ⊥
IsPart (d ∷ ds) (d' ∷ ds') = (p : Front d d') × (((p.unsent ≡ []) × IsPart ds ds') ⊎ (ds' ≡ []))

pub Carries-IsPart :
    (codec : Codec) (ds ds' : Delta) (b : Bytes) → Carries codec ds ds' b → IsPart ds ds'
Carries-IsPart codec ds [] b c = tt
Carries-IsPart codec [] (d' ∷ ds') b c = absurd c
Carries-IsPart codec (d ∷ ds) (d' ∷ ds') b (header, entries, rest, wrote, split, w, p, next) = (
  p,
  elim next [
    | inl (whole, more) ↦ inl (whole, Carries-IsPart codec ds ds' rest more)
    | inr (nothing, over) ↦ inr nothing
  ],
)
