-- ===== src/Gossip/Protocol/Packing.antt =====
-- pkg/gossip/protocol.go: what the packing loops leave in a packet.
use pico.Prelude.{
  ℕ, zero, suc, ◌≤◌, ◌<◌, ◌≡◌, ◌∙◌, refl, ap, ◌⊎◌, inl, inr, List, [], ◌∷◌, ◌++◌, some, ltb, length,
  append_assoc, append-nil, arith, Option-cases, Bool-cases, ltb→lt,
}
use pico.Gossip.Protocol.{Bytes, Format, Buffer, ok, take, marked, append_all}

pub take-append : (b c : Bytes) → take (length b) (b ++ c) ≡ b
take-append [] c = refl
take-append (x ∷ b) c = ap (λ l. x ∷ l) (take-append b c)

pub take-append_le : (n : ℕ) (b c : Bytes) → n ≤ length b → take n (b ++ c) ≡ take n b
take-append_le zero b c le = refl
take-append_le (suc n) [] c le = absurd (omega (arith, le))
take-append_le (suc n) (x ∷ b) c le = ap (λ l. x ∷ l) (take-append_le n b c (omega (arith, le)))

pub length-take : (n : ℕ) (b : Bytes) → length (take n b) ≤ n
length-take zero b = omega arith
length-take (suc n) [] = omega arith
length-take (suc n) (x ∷ b) = omega (arith, length-take n b)

pub take-all : (b : Bytes) → take (length b) b ≡ b
take-all [] = refl
take-all (x ∷ b) = ap (λ l. x ∷ l) (take-all b)

-- The bytes are those of the values, one after the other.
abbrev pub Written : {A : Type 0} → Format A → List A → Bytes → Type 0
Written f [] bytes = bytes ≡ []
Written f (a ∷ xs) bytes =
    (b : Bytes) × (rest : Bytes) × (f.encode a ≡ some b) × (bytes ≡ b ++ rest) × Written f xs rest

-- What a loop that starts from the bytes `b` leaves: a front part of the values is sent; all of
-- them, or the buffer is beyond the packet size.
pub record Packed {A : Type 0} (f : Format A) (max : ℕ) (xs : List A) (b : Bytes) (r : Buffer)
    : Type 0 where
  pub sent : List A
  pub unsent : List A
  pub added : Bytes
  pub split : sent ++ unsent ≡ xs
  pub written : Written f sent added
  pub cut : take r.len r.bytes ≡ b ++ added
  pub fits : r.len ≤ max
  pub whole_or_full : ((sent ≡ xs) × (r ≡ marked (b ++ added))) ⊎ (max < length r.bytes)

pub append_all-Packed :
    {A : Type 0} (f : Format A) (max : ℕ) (xs : List A) (b : Bytes) {r : Buffer}
    → length b ≤ max
    → append_all f max xs (marked b) ≡ ok r
    → Packed f max xs b r
unfolding append_all
append_all-Packed f max [] b {r} le done =
    let same : r ≡ marked b = cc in
    record {
      sent = [];
      unsent = [];
      added = [];
      split = refl;
      written = refl;
      cut = rw (same, append-nil) (take-all b);
      fits = rw same le;
      whole_or_full = inl (refl, rw append-nil same);
    }
append_all-Packed f max (a ∷ xs) b {r} le done = elim (Option-cases (f.encode a)) [
  | inl failed ↦ absurd (ground (arith, done, failed))
  | inr (bs, wrote) ↦ elim (Bool-cases (ltb max (length (b ++ bs)))) [
    | inl over ↦
        let same : r ≡ record { bytes = b ++ bs; len = length b } =
          ground (arith, done, wrote, over) in
        record {
          sent = [];
          unsent = a ∷ xs;
          added = [];
          split = refl;
          written = refl;
          cut = rw (same, append-nil) (take-append b bs);
          fits = rw same le;
          whole_or_full = inr (rw same (ltb→lt max (length (b ++ bs)) over));
        }
    | inr room ↦
        let rest : Packed f max xs (b ++ bs) r =
          append_all-Packed f max xs (b ++ bs) (ground (arith, room))
            (ground (arith, done, wrote, room)) in
        record {
          sent = a ∷ rest.sent;
          unsent = rest.unsent;
          added = bs ++ rest.added;
          split = ap (λ l. a ∷ l) rest.split;
          written = (bs, rest.added, wrote, refl, rest.written);
          cut = rest.cut ∙ append_assoc b bs rest.added;
          fits = rest.fits;
          whole_or_full = elim rest.whole_or_full [
            | inl (all, same) ↦ inl (ap (λ l. a ∷ l) all, rw (← append_assoc b bs rest.added) same)
            | inr full ↦ inr full
          ];
        }
  ]
]
