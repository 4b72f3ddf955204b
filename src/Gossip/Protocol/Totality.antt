-- ===== src/Gossip/Protocol/Totality.antt =====
-- pkg/gossip/protocol.go: the loops on arbitrary input, and packet sizes at which they send.
use pico.Prelude.{
  ℕ, zero, suc, ◌≤◌, ◌<◌, ◌≡◌, ◌≢◌, refl, ◌⊎◌, inl, inr, List, [], ◌∷◌, length, arith, subst,
}
use pico.Gossip.Types.{Entry}
use pico.Gossip.Protocol.{
  Bytes, Format, IsFormat, IsCodec, Codec, Decoded, decoded, end_of_file, malformed, Result, ok,
  err, no_fuel, read_failed, incorrect_type, unsupported_version, decode_failed, decode_digest,
  decode_delta, read_start, decode_one, read_digest, read_entries, read_delta, Result-cases,
  digest_type, delta_type, ◌>>=◌, unsupported_type, encode_failed, size_too_small, packet_too_small,
  resolve_failed, write_failed, dial_failed,
}

Decoded-cases :
    {A : Type 0} (d : Decoded A)
    → ((a : A) × (rest : Bytes) × (d ≡ decoded a rest)) ⊎ ((d ≡ end_of_file) ⊎ (d ≡ malformed))
Decoded-cases (decoded a rest) = inl (a, rest, refl)
Decoded-cases end_of_file = inr (inl refl)
Decoded-cases malformed = inr (inr refl)

-- A result of the source: the loop was not cut off.
abbrev IsReal {ℓ} : {A : Type ℓ} → Result A → Type 0
IsReal (ok a) = Unit
IsReal (err no_fuel) = ⊥
IsReal (err e) = Unit

bind-IsReal :
    {A B : Type 0} (r : Result A) (f : A → Result B)
    → IsReal r
    → ((a : A) → r ≡ ok a → IsReal (f a))
    → IsReal (r >>= f)
bind-IsReal (ok a) f real next = next a refl
bind-IsReal (err no_fuel) f real next = absurd real
bind-IsReal (err read_failed) f real next = tt
bind-IsReal (err (incorrect_type t)) f real next = tt
bind-IsReal (err (unsupported_version v)) f real next = tt
bind-IsReal (err (unsupported_type t)) f real next = tt
bind-IsReal (err decode_failed) f real next = tt
bind-IsReal (err encode_failed) f real next = tt
bind-IsReal (err (size_too_small m n)) f real next = tt
bind-IsReal (err (packet_too_small n)) f real next = tt
bind-IsReal (err (resolve_failed a)) f real next = tt
bind-IsReal (err (write_failed a)) f real next = tt
bind-IsReal (err dial_failed) f real next = tt

module _ (codec : Codec) (laws : IsCodec codec) where
  read_digest-IsReal : (fuel : ℕ) (b : Bytes) → length b < fuel → IsReal (read_digest codec fuel b)
  unfolding read_digest
  read_digest-IsReal zero b lt = absurd (omega (arith, lt))
  read_digest-IsReal (suc fuel) b lt = elim (Decoded-cases (codec.digest_entry.decode b)) [
    | inl (d, rest, read) ↦
        let shorter = laws.digest_entry.decode-lt b rest d read in
        let ih = read_digest-IsReal fuel rest (omega (arith, shorter, lt)) in
        rw (read_digest, read) (bind-IsReal (read_digest codec fuel rest) _ ih (λ ds done. tt))
    | inr (inl over) ↦ rw (read_digest, over) tt
    | inr (inr bad) ↦ rw (read_digest, bad) tt
  ]

  read_start-IsReal : (t : ℕ) (b : Bytes) → IsReal (read_start t b)
  unfolding read_start
  read_start-IsReal t [] = tt
  read_start-IsReal t (x ∷ []) = ground arith
  read_start-IsReal t (x ∷ y ∷ b) = ground arith

  decode_one-IsReal : {A : Type 0} (f : Format A) (b : Bytes) → IsReal (decode_one f b)
  unfolding decode_one
  decode_one-IsReal f b = elim (Decoded-cases (f.decode b)) [
    | inl (a, rest, read) ↦ rw (decode_one, read) tt
    | inr (inl over) ↦ rw (decode_one, over) tt
    | inr (inr bad) ↦ rw (decode_one, bad) tt
  ]

  read_entries-le :
      (left : ℕ) (b : Bytes)
      → IsReal (read_entries codec left b)
        × ((read : List Entry × Bytes)
            → read_entries codec left b ≡ ok read
            → length read.1 ≤ length b)
  unfolding read_entries
  read_entries-le zero b = (tt, λ read done. ground (arith, done))
  read_entries-le (suc left) b = elim (Decoded-cases (codec.entry.decode b)) [
    | inl (e, rest, read) ↦
        let shorter = laws.entry.decode-lt b rest e read in
        let (real, le) = read_entries-le left rest in
        (
          rw (read_entries, read)
              (bind-IsReal (read_entries codec left rest) _ real (λ r done. tt)),
          λ r done. elim (Result-cases (read_entries codec left rest)) [
            | inl (inner, ran) ↦ ground (arith, done, read, ran, shorter, le inner ran)
            | inr (x, failed) ↦ absurd (ground (arith, done, read, failed))
          ],
        )
    | inr (inl over) ↦ (rw (read_entries, over) tt, λ r done. ground (arith, done, over))
    | inr (inr bad) ↦ (rw (read_entries, bad) tt, λ r done. absurd (ground (arith, done, bad)))
  ]

  read_delta-IsReal : (fuel : ℕ) (b : Bytes) → length b < fuel → IsReal (read_delta codec fuel b)
  unfolding read_delta
  read_delta-IsReal zero b lt = absurd (omega (arith, lt))
  read_delta-IsReal (suc fuel) b lt = elim (Decoded-cases (codec.delta_header.decode b)) [
    | inl (header, rest, read) ↦
        let shorter = laws.delta_header.decode-lt b rest header read in
        let (real, le) = read_entries-le header.entries rest in
        rw (read_delta, read)
          (bind-IsReal (read_entries codec header.entries rest) _ real (λ r done.
            bind-IsReal (read_delta codec fuel r.1) _
              (read_delta-IsReal fuel r.1 (omega (arith, shorter, lt, le r done))) (λ ds ran. tt)))
    | inr (inl over) ↦ rw (read_delta, over) tt
    | inr (inr bad) ↦ rw (read_delta, bad) tt
  ]

  real : {A : Type 0} (r : Result A) → IsReal r → r ≢ err no_fuel
  real r h e = subst IsReal e h

  read_start-lt :
      (t : ℕ) (packet : Bytes) {b : Bytes} → read_start t packet ≡ ok b → length b < length packet
  unfolding read_start
  read_start-lt t [] done = absurd (ground (arith, done))
  read_start-lt t (x ∷ []) done = absurd (ground (arith, done))
  read_start-lt t (x ∷ v ∷ b) done = ground (arith, done)

  decode_one-lt :
      {A : Type 0} (f : Format A) (laws' : IsFormat f) (b : Bytes) {h : A × Bytes}
      → decode_one f b ≡ ok h
      → length h.1 < length b
  unfolding decode_one
  decode_one-lt f laws' b {h} done = elim (Decoded-cases (f.decode b)) [
    | inl (a, rest, read) ↦ ground (arith, done, read, laws'.decode-lt b rest a read)
    | inr (inl over) ↦ absurd (ground (arith, done, over))
    | inr (inr bad) ↦ absurd (ground (arith, done, bad))
  ]

  packet-IsReal :
      {A B : Type 0} (f : Format A) (laws' : IsFormat f) (loop : ℕ → Bytes → Result (List B))
      (t : ℕ) (packet : Bytes)
      → ((fuel : ℕ) (b : Bytes) → length b < fuel → IsReal (loop fuel b))
      → IsReal {A = A × List B} (do
        rest ← read_start t packet
        header ← decode_one f rest
        ds ← loop (suc (length packet)) header.1
        ok (header.0, ds))
  packet-IsReal f laws' loop t packet loops =
      bind-IsReal (read_start t packet) _ (read_start-IsReal t packet) (λ b started.
        bind-IsReal (decode_one f b) _ (decode_one-IsReal f b) (λ h read.
          let lt : length h.1 < suc (length packet) =
            omega (arith, read_start-lt t packet started, decode_one-lt f laws' b read) in
          bind-IsReal (loop (suc (length packet)) h.1) _ (loops (suc (length packet)) h.1 lt)
            (λ ds ran. tt)))

  -- If each value that the codec reads takes bytes, the loops of decodeDigest and decodeDelta end
  -- on every packet: the fuel, one more than the packet's length, is enough.
  pub decode-total :
      (packet : Bytes)
      → (decode_digest codec packet ≢ err no_fuel) × (decode_delta codec packet ≢ err no_fuel)
  unfolding decode_digest decode_delta
  decode-total packet = (
    real (decode_digest codec packet) (
        packet-IsReal codec.digest_header laws.digest_header (read_digest codec) digest_type packet
          read_digest-IsReal),
    real (decode_delta codec packet) (
        packet-IsReal codec.delta_header laws.delta_header (read_delta codec) delta_type packet
          read_delta-IsReal),
  )
