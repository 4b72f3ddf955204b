-- ===== src/Tests/Formats.antt =====
-- A codec for packets and streams, to run pkg/gossip/protocol.go with: a number is one byte, a
-- string ends in a zero, a list marks each element.
use pico.Prelude.{
  ℕ, zero, suc, ◌<◌, ◌≡◌, refl, ap, ◌⊎◌, inl, inr, GoString, Bool, true, false, List, [], ◌∷◌, ◌++◌,
  Option, some, length, append_assoc, arith, Option-cases, ◌>>=◌, ◌==◌,
}
use pico.Gossip.Types.{Entry, DigestEntry, DeltaEntry}
use pico.Gossip.Protocol.{
  Bytes, Decoded, decoded, end_of_file, malformed, Format, IsFormat, Codec, IsCodec, DigestHeader,
  DeltaHeader, JoinHeader,
}

decoded-cases :
    {A : Type 0} (d : Decoded A)
    → ((a : A) × (rest : Bytes) × (d ≡ decoded a rest)) ⊎ ((d ≡ end_of_file) ⊎ (d ≡ malformed))
decoded-cases (decoded a rest) = inl (a, rest, refl)
decoded-cases end_of_file = inr (inl refl)
decoded-cases malformed = inr (inr refl)

abbrev number : Format ℕ
number = record {
  encode = λ n. some (n ∷ []);
  decode = λ b. elim b [ [] ↦ end_of_file | n ∷ rest ↦ decoded n rest ];
}

number-IsFormat : IsFormat number
number-IsFormat = record {
  decode-encode = λ n b rest wrote. let same : b ≡ n ∷ [] = ground (arith, wrote) in rw same refl;
  decode-end = refl;
  decode-lt = λ b rest a read. number_lt b rest a read;
}
  where
    number_lt : (b rest : Bytes) (a : ℕ) → number.decode b ≡ decoded a rest → length rest < length b
    number_lt [] rest a read = absurd (ground (arith, read))
    number_lt (n ∷ b) rest a read = ground (arith, read)

-- More input after the first value.
abbrev followed : {A B : Type 0} → (A → B) → Decoded A → Decoded B
followed f (decoded a rest) = decoded (f a) rest
followed f end_of_file = malformed
followed f malformed = malformed

abbrev encode_text : GoString → Bytes
encode_text [] = 0 ∷ []
encode_text (c ∷ s) = suc c ∷ encode_text s

unfoldable pub decode_text : Bytes → Decoded GoString
decode_text [] = end_of_file
decode_text (zero ∷ b) = decoded [] b
decode_text (suc c ∷ b) = followed (λ s. c ∷ s) (decode_text b)

abbrev text : Format GoString
text = record { encode = λ s. some (encode_text s); decode = decode_text }

decode_text-encode_text :
    (s : GoString) (rest : Bytes) → decode_text (encode_text s ++ rest) ≡ decoded s rest
unfolding decode_text
decode_text-encode_text [] rest = refl
decode_text-encode_text (c ∷ s) rest = rw (decode_text-encode_text s rest) refl

decode_text-lt :
    (b rest : Bytes) (s : GoString) → decode_text b ≡ decoded s rest → length rest < length b
unfolding decode_text
decode_text-lt [] rest s read = absurd (ground (arith, read))
decode_text-lt (zero ∷ b) rest s read = ground (arith, read)
decode_text-lt (suc c ∷ b) rest s read = elim (decoded-cases (decode_text b)) [
  | inl (s', rest', read') ↦ ground (arith, read, read', decode_text-lt b rest' s' read')
  | inr (inl over) ↦ absurd (ground (arith, read, over))
  | inr (inr bad) ↦ absurd (ground (arith, read, bad))
]

text-IsFormat : IsFormat text
unfolding decode_text
text-IsFormat = record {
  decode-encode = λ s b rest wrote.
      let same : b ≡ encode_text s = ground (arith, wrote) in
      rw same (decode_text-encode_text s rest);
  decode-end = refl;
  decode-lt = decode_text-lt;
}

module _ {A B : Type 0} (f : Format A) (g : Format B) where
  abbrev both_decoded : Decoded A → Decoded (A × B)
  both_decoded (decoded a rest) = followed (λ b. (a, b)) (g.decode rest)
  both_decoded end_of_file = end_of_file
  both_decoded malformed = malformed

  abbrev both : Format (A × B)
  both = record {
    encode = λ x. f.encode x.0 >>= λ b. g.encode x.1 >>= λ c. some (b ++ c);
    decode = λ b. both_decoded (f.decode b);
  }

  both-IsFormat : IsFormat f → IsFormat g → IsFormat both
  both-IsFormat hf hg = record {
    decode-encode = λ x b rest wrote. elim (Option-cases (f.encode x.0)) [
      | inl failed ↦ absurd (ground (arith, wrote, failed))
      | inr (b', wrote') ↦ elim (Option-cases (g.encode x.1)) [
        | inl failed ↦ absurd (ground (arith, wrote, wrote', failed))
        | inr (c, wrote'') ↦
            let same : b ≡ b' ++ c = ground (arith, wrote, wrote', wrote'') in
            rw
              (
                same,
                append_assoc b' c rest,
                hf.decode-encode x.0 b' (c ++ rest) wrote',
                hg.decode-encode x.1 c rest wrote'',
              )
              refl
      ]
    ];
    decode-end = rw hf.decode-end refl;
    decode-lt = λ b rest x read. elim (decoded-cases (f.decode b)) [
      | inr (inl over) ↦ absurd (ground (arith, read, over))
      | inr (inr bad) ↦ absurd (ground (arith, read, bad))
      | inl (a, middle, read') ↦ elim (decoded-cases (g.decode middle)) [
        | inr (inl over) ↦ absurd (ground (arith, read, read', over))
        | inr (inr bad) ↦ absurd (ground (arith, read, read', bad))
        | inl (y, rest', read'') ↦ ground (
          arith,
          read,
          read',
          read'',
          hf.decode-lt b middle a read',
          hg.decode-lt middle rest' y read'',
        )
      ]
    ];
  }

module _ {A B : Type 0} (f : Format A) (to : B → A) (from : A → B) where
  abbrev mapped : Decoded A → Decoded B
  mapped (decoded a rest) = decoded (from a) rest
  mapped end_of_file = end_of_file
  mapped malformed = malformed

  abbrev map_format : Format B
  map_format = record { encode = λ x. f.encode (to x); decode = λ b. mapped (f.decode b) }

  map_format-IsFormat : ((x : B) → from (to x) ≡ x) → IsFormat f → IsFormat map_format
  map_format-IsFormat back h = record {
    decode-encode = λ x b rest wrote.
        rw (h.decode-encode (to x) b rest wrote) (ap (λ y. decoded y rest) (back x));
    decode-end = rw h.decode-end refl;
    decode-lt = λ b rest x read. elim (decoded-cases (f.decode b)) [
      | inr (inl over) ↦ absurd (ground (arith, read, over))
      | inr (inr bad) ↦ absurd (ground (arith, read, bad))
      | inl (a, rest', read') ↦ ground (arith, read, read', h.decode-lt b rest' a read')
    ];
  }

module _ {A : Type 0} (f : Format A) where
  unfoldable pub encode_list : List A → Option Bytes
  encode_list [] = some (0 ∷ [])
  encode_list (a ∷ xs) = f.encode a >>= λ b. encode_list xs >>= λ bs. some (1 ∷ (b ++ bs))

  unfoldable pub decode_list : ℕ → Bytes → Decoded (List A)
  decode_list zero b = malformed
  decode_list (suc fuel) [] = end_of_file
  decode_list (suc fuel) (zero ∷ b) = decoded [] b
  decode_list (suc fuel) (suc n ∷ b) = elim (f.decode b) [
    | decoded a rest ↦ followed (λ xs. a ∷ xs) (decode_list fuel rest)
    | end_of_file ↦ malformed
    | malformed ↦ malformed
  ]

  abbrev list_format : Format (List A)
  list_format = record { encode = encode_list; decode = λ b. decode_list (suc (length b)) b }

  module _ (h : IsFormat f) where
    decode_list-encode_list :
        (xs : List A) (b rest : Bytes) (fuel : ℕ)
        → encode_list xs ≡ some b
        → length (b ++ rest) < fuel
        → decode_list fuel (b ++ rest) ≡ decoded xs rest
    unfolding encode_list decode_list
    decode_list-encode_list xs b rest zero wrote lt = absurd (omega (arith, lt))
    decode_list-encode_list [] b rest (suc fuel) wrote lt =
        let same : b ≡ 0 ∷ [] = ground (arith, wrote) in rw same refl
    decode_list-encode_list (a ∷ xs) b rest (suc fuel) wrote lt = elim (Option-cases (f.encode a)) [
      | inl failed ↦ absurd (ground (arith, wrote, failed))
      | inr (c, wrote') ↦ elim (Option-cases (encode_list xs)) [
        | inl failed ↦ absurd (ground (arith, wrote, wrote', failed))
        | inr (bs, wrote'') ↦
            let same : b ≡ 1 ∷ (c ++ bs) = ground (arith, wrote, wrote', wrote'') in
            let read = h.decode-encode a c (bs ++ rest) wrote' in
            let shorter = h.decode-lt (c ++ (bs ++ rest)) (bs ++ rest) a read in
            let fits : length (bs ++ rest) < fuel =
              ground (arith, lt, same, shorter, ap length (append_assoc c bs rest)) in
            rw
              (
                same,
                append_assoc c bs rest,
                decode_list,
                read,
                decode_list-encode_list xs bs rest fuel wrote'' fits,
              )
              refl
      ]
    ]

    decode_list-lt :
        (fuel : ℕ) (b rest : Bytes) (xs : List A)
        → decode_list fuel b ≡ decoded xs rest
        → length rest < length b
    unfolding decode_list
    decode_list-lt zero b rest xs read = absurd (ground (arith, read))
    decode_list-lt (suc fuel) [] rest xs read = absurd (ground (arith, read))
    decode_list-lt (suc fuel) (zero ∷ b) rest xs read = ground (arith, read)
    decode_list-lt (suc fuel) (suc n ∷ b) rest xs read = elim (decoded-cases (f.decode b)) [
      | inr (inl over) ↦ absurd (ground (arith, read, over))
      | inr (inr bad) ↦ absurd (ground (arith, read, bad))
      | inl (a, middle, read') ↦ elim (decoded-cases (decode_list fuel middle)) [
        | inr (inl over) ↦ absurd (ground (arith, read, read', over))
        | inr (inr bad) ↦ absurd (ground (arith, read, read', bad))
        | inl (ys, rest', read'') ↦ ground (
          arith,
          read,
          read',
          read'',
          h.decode-lt b middle a read',
          decode_list-lt fuel middle rest' ys read'',
        )
      ]
    ]

    list_format-IsFormat : IsFormat list_format
    unfolding decode_list
    list_format-IsFormat = record {
      decode-encode = λ xs b rest wrote.
          decode_list-encode_list xs b rest (suc (length (b ++ rest))) wrote (omega arith);
      decode-end = refl;
      decode-lt = λ b rest xs read. decode_list-lt (suc (length b)) b rest xs read;
    }

abbrev bit : Bool → ℕ
bit true = 1
bit false = 0

bit_back : (b : Bool) → (bit b == 1) ≡ b
bit_back true = refl
bit_back false = refl

abbrev bool : Format Bool
bool = map_format number bit (λ n. n == 1)

bool-IsFormat : IsFormat bool
bool-IsFormat = map_format-IsFormat number bit (λ n. n == 1) bit_back number-IsFormat

abbrev digest_header : Format DigestHeader
digest_header =
    map_format (both text (both text bool)) (λ h. (h.node_id, (h.addr, h.request)))
      (λ x. record { node_id = x.0; addr = x.1.0; request = x.1.1 })

abbrev delta_header : Format DeltaHeader
delta_header =
    map_format (both text (both text number)) (λ h. (h.node_id, (h.addr, h.entries)))
      (λ x. record { node_id = x.0; addr = x.1.0; entries = x.1.1 })

abbrev join_header : Format JoinHeader
join_header =
    map_format (both text text) (λ h. (h.node_id, h.addr))
      (λ x. record { node_id = x.0; addr = x.1 })

abbrev digest_entry : Format DigestEntry
digest_entry =
    map_format (both text (both text (both number bool)))
      (λ d. (d.id, (d.addr, (d.version, d.left))))
      (λ x. record { id = x.0; addr = x.1.0; version = x.1.1.0; left = x.1.1.1 })

abbrev entry : Format Entry
entry =
    map_format (both text (both text (both number (both bool bool))))
      (λ e. (e.key, (e.value, (e.version, (e.internal, e.deleted)))))
      (λ x. record {
        key = x.0;
        value = x.1.0;
        version = x.1.1.0;
        internal = x.1.1.1.0;
        deleted = x.1.1.1.1;
      })

abbrev delta_entry : Format DeltaEntry
delta_entry =
    map_format (both text (both text (list_format entry))) (λ d. (d.id, (d.addr, d.entries)))
      (λ x. record { id = x.0; addr = x.1.0; entries = x.1.1 })

abbrev pub plain_codec : Codec
plain_codec = record {
  digest_header = digest_header;
  delta_header = delta_header;
  join_header = join_header;
  digest_entry = digest_entry;
  entry = entry;
  digest = list_format digest_entry;
  delta = list_format delta_entry;
}

texts : {B : Type 0} (g : Format B) → IsFormat g → IsFormat (both text (both text g))
texts g h = both-IsFormat text (both text g) text-IsFormat (both-IsFormat text g text-IsFormat h)

entry-IsFormat : IsFormat entry
entry-IsFormat =
    map_format-IsFormat _ _ _ (λ e. refl)
      (texts (both number (both bool bool)) (
        both-IsFormat number (both bool bool) number-IsFormat
          (both-IsFormat bool bool bool-IsFormat bool-IsFormat)))

digest_entry-IsFormat : IsFormat digest_entry
digest_entry-IsFormat =
    map_format-IsFormat _ _ _ (λ d. refl)
      (texts (both number bool) (both-IsFormat number bool number-IsFormat bool-IsFormat))

pub plain_codec-IsCodec : IsCodec plain_codec
plain_codec-IsCodec = record {
  digest_header = map_format-IsFormat _ _ _ (λ h. refl) (texts bool bool-IsFormat);
  delta_header = map_format-IsFormat _ _ _ (λ h. refl) (texts number number-IsFormat);
  join_header =
      map_format-IsFormat _ _ _ (λ h. refl) (both-IsFormat text text text-IsFormat text-IsFormat);
  digest_entry = digest_entry-IsFormat;
  entry = entry-IsFormat;
  digest = list_format-IsFormat digest_entry digest_entry-IsFormat;
  delta = list_format-IsFormat delta_entry (
      map_format-IsFormat _ _ _ (λ d. refl)
        (texts (list_format entry) (list_format-IsFormat entry entry-IsFormat)));
}
