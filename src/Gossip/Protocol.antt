-- ===== src/Gossip/Protocol.antt =====
-- pkg/gossip/protocol.go: the headers of messages, the library that turns values into bytes, and
-- the two packets. Children are about what is sent and what arrives.
use pico.Prelude.{
  ℕ, zero, suc, ◌+◌, ◌<◌, ◌≡◌, GoString, codes, List, [], ◌∷◌, ◌++◌, Option, none, some, Bool, true,
  false, ltb, length, if◌then◌else◌, ◌==◌, ◌⊎◌, inl, inr, refl,
}
use pico.Gossip.Types.{Entry, DigestEntry, Digest, DeltaEntry, Delta}
pub mod Encoding
pub mod Packing
pub mod Parts
pub mod Arrival
pub mod Totality

abbrev pub Bytes : Type 0
Bytes = List ℕ

-- `messageTypeDigest` to `messageTypeLeave`
abbrev pub digest_type : ℕ
digest_type = 1

abbrev pub delta_type : ℕ
delta_type = 2

abbrev pub join_type : ℕ
join_type = 3

abbrev pub leave_type : ℕ
leave_type = 4

abbrev pub supported_version : ℕ
supported_version = 0

-- `messageType.String`
unfoldable pub type_name : ℕ → GoString
type_name t =
    if t == digest_type
    then codes "digest"
    else if t == delta_type
    then codes "delta"
    else if t == join_type
    then codes "join"
    else if t == leave_type
    then codes "leave"
    else codes "unknown"

pub record DigestHeader : Type 0 where
  pub node_id : GoString
  pub addr : GoString
  pub request : Bool

-- The count of entries is an int, as its 64-bit pattern.
pub record DeltaHeader : Type 0 where
  pub node_id : GoString
  pub addr : GoString
  pub entries : ℕ

pub record JoinHeader : Type 0 where
  pub node_id : GoString
  pub addr : GoString

-- It has the fields and the tags of `joinHeader`, hence the same bytes.
abbrev pub LeaveHeader : Type 0
LeaveHeader = JoinHeader

-- What the decoder makes of the bytes ahead: a value and the bytes after it, an error that is
-- `io.EOF`, or another error. A decoder that met the end has no bytes left.
pub data Decoded {ℓ} (A : Type ℓ) : Type ℓ where
  decoded : A → Bytes → Decoded A
  end_of_file : Decoded A
  malformed : Decoded A

-- The library's codec for one type of values; `none` is an error of `Encode`.
pub record Format (A : Type 0) : Type 0 where
  pub encode : A → Option Bytes
  pub decode : Bytes → Decoded A

-- A value reads back from the bytes that were written for it; at the end there is none; and each
-- that is read takes bytes.
pub record IsFormat {A : Type 0} (f : Format A) : Type 0 where
  pub decode-encode :
      (a : A) (b rest : Bytes) → f.encode a ≡ some b → f.decode (b ++ rest) ≡ decoded a rest
  pub decode-end : f.decode [] ≡ end_of_file
  pub decode-lt : (b rest : Bytes) (a : A) → f.decode b ≡ decoded a rest → length rest < length b

-- github.com/ugorji/go/codec with `MsgpackHandle`, for the types that are sent.
pub record Codec : Type 0 where
  pub digest_header : Format DigestHeader
  pub delta_header : Format DeltaHeader
  pub join_header : Format JoinHeader
  pub digest_entry : Format DigestEntry
  pub entry : Format Entry
  pub digest : Format Digest
  pub delta : Format Delta

pub record IsCodec (c : Codec) : Type 0 where
  pub digest_header : IsFormat c.digest_header
  pub delta_header : IsFormat c.delta_header
  pub join_header : IsFormat c.join_header
  pub digest_entry : IsFormat c.digest_entry
  pub entry : IsFormat c.entry
  pub digest : IsFormat c.digest
  pub delta : IsFormat c.delta

-- The errors of packets and streams; `no_fuel` is the model's own.
pub data Error : Type 0 where
  read_failed : Error
  incorrect_type : GoString → Error
  unsupported_version : ℕ → Error
  unsupported_type : ℕ → Error
  decode_failed : Error
  encode_failed : Error
  size_too_small : ℕ → ℕ → Error
  packet_too_small : ℕ → Error
  resolve_failed : GoString → Error
  write_failed : GoString → Error
  dial_failed : Error
  no_fuel : Error

pub data Result {ℓ} (A : Type ℓ) : Type ℓ where
  ok : A → Result A
  err : Error → Result A

infixl 5 ◌>>=◌
abbrev pub ◌>>=◌ {ℓ κ} : {A : Type ℓ} {B : Type κ} → Result A → (A → Result B) → Result B
ok a >>= f = f a
err e >>= f = err e

-- `buf` and `bufLen`: what was written, and how much of it is sent.
pub record Buffer : Type 0 where
  pub bytes : Bytes
  pub len : ℕ

-- `bufLen = buf.Len()`
abbrev pub marked : Bytes → Buffer
marked b = record { bytes = b; len = length b }

abbrev pub take {ℓ} : {A : Type ℓ} → ℕ → List A → List A
take zero b = []
take (suc n) [] = []
take (suc n) (x ∷ b) = x ∷ take n b

-- An error of `Encode`.
abbrev pub encoded : Option Bytes → Result Bytes
encoded none = err encode_failed
encoded (some b) = ok b

-- `encoder.Encode` at the end of the buffer, and the check of the packet size: `none` leaves the
-- loop.
abbrev pub within : ℕ → Bytes → Option Bytes
within max_packet_size b = if ltb max_packet_size (length b) then none else some b

-- The loop that appends values until the packet is full.
unfoldable pub append_all : {A : Type 0} → Format A → ℕ → List A → Buffer → Result Buffer
append_all f max_packet_size [] buf = ok buf
append_all f max_packet_size (a ∷ xs) buf = elim (f.encode a) [
  | none ↦ err encode_failed
  | some b ↦ elim (within max_packet_size (buf.bytes ++ b)) [
    | none ↦ ok (record buf { bytes = buf.bytes ++ b })
    | some bytes ↦ append_all f max_packet_size xs (marked bytes)
  ]
]

abbrev pub delta_header_of : DeltaEntry → DeltaHeader
delta_header_of d = record { node_id = d.id; addr = d.addr; entries = length d.entries }

-- The type, the version and the header.
unfoldable pub start_packet : {A : Type 0} → Format A → ℕ → A → ℕ → Result Buffer
start_packet f message_type header max_packet_size = do
  b ← encoded (f.encode header)
  let bytes = message_type ∷ supported_version ∷ b
  if ltb max_packet_size (length bytes)
      then err (size_too_small max_packet_size (length bytes))
      else ok (marked bytes)

-- The two bytes that both packets start with.
unfoldable pub read_start : ℕ → Bytes → Result Bytes
unfolding type_name
read_start message_type [] = err read_failed
read_start message_type (t ∷ b) =
    if t == message_type
    then elim b [
      | [] ↦ err read_failed
      | version ∷ rest ↦
          if version == supported_version then ok rest else err (unsupported_version version)
    ]
    else err (incorrect_type (type_name t))

-- A header that must be there: `io.EOF` is an error like any other.
unfoldable pub decode_one : {A : Type 0} → Format A → Bytes → Result (A × Bytes)
decode_one f b = elim (f.decode b) [
  | decoded a rest ↦ ok (a, rest)
  | end_of_file ↦ err decode_failed
  | malformed ↦ err decode_failed
]

module _ (codec : Codec) where
  -- `encodeDigest`
  unfoldable pub encode_digest : DigestHeader → Digest → ℕ → Result Bytes
  unfolding start_packet append_all
  encode_digest header ds max_packet_size = do
    buf ← start_packet codec.digest_header digest_type header max_packet_size
    sent ← append_all codec.digest_entry max_packet_size ds buf
    ok (take sent.len sent.bytes)

  -- The outer loop of `encodeDelta`. A break of the inner loop leaves the outer one running, with
  -- the bytes that are too many still in the buffer.
  unfoldable pub append_delta : ℕ → Delta → Buffer → Result Buffer
  unfolding append_all
  append_delta max_packet_size [] buf = ok buf
  append_delta max_packet_size (d ∷ ds) buf = elim (codec.delta_header.encode (delta_header_of d)) [
    | none ↦ err encode_failed
    | some b ↦ elim (within max_packet_size (buf.bytes ++ b)) [
      | none ↦ ok (record buf { bytes = buf.bytes ++ b })
      | some bytes ↦
          append_all codec.entry max_packet_size d.entries (marked bytes)
          >>= append_delta max_packet_size ds
    ]
  ]

  -- `encodeDelta`
  unfoldable pub encode_delta : DeltaHeader → Delta → ℕ → Result Bytes
  unfolding start_packet append_delta
  encode_delta header ds max_packet_size = do
    buf ← start_packet codec.delta_header delta_type header max_packet_size
    sent ← append_delta max_packet_size ds buf
    ok (take sent.len sent.bytes)

  -- The loop of `decodeDigest`.
  unfoldable pub read_digest : ℕ → Bytes → Result Digest
  read_digest zero b = err no_fuel
  read_digest (suc fuel) b = elim (codec.digest_entry.decode b) [
    | decoded d rest ↦ do ds ← read_digest fuel rest; ok (d ∷ ds)
    | end_of_file ↦ ok []
    | malformed ↦ err decode_failed
  ]

  -- `decodeDigest`
  unfoldable pub decode_digest : Bytes → Result (DigestHeader × Digest)
  unfolding read_start decode_one read_digest
  decode_digest b = do
    rest ← read_start digest_type b
    header ← decode_one codec.digest_header rest
    ds ← read_digest (suc (length b)) header.1
    ok (header.0, ds)

  -- The inner loop of `decodeDelta`: as many entries as are left of the header's count.
  unfoldable pub read_entries : ℕ → Bytes → Result (List Entry × Bytes)
  read_entries zero b = ok ([], b)
  read_entries (suc left) b = elim (codec.entry.decode b) [
    | decoded e rest ↦ do read ← read_entries left rest; ok (e ∷ read.0, read.1)
    | end_of_file ↦ ok ([], [])
    | malformed ↦ err decode_failed
  ]

  -- The outer loop of `decodeDelta`.
  unfoldable pub read_delta : ℕ → Bytes → Result Delta
  unfolding read_entries
  read_delta zero b = err no_fuel
  read_delta (suc fuel) b = elim (codec.delta_header.decode b) [
    | decoded header rest ↦ do
      read ← read_entries header.entries rest
      ds ← read_delta fuel read.1
      ok (record { id = header.node_id; addr = header.addr; entries = read.0 } ∷ ds)
    | end_of_file ↦ ok []
    | malformed ↦ err decode_failed
  ]

  -- `decodeDelta`
  unfoldable pub decode_delta : Bytes → Result (DeltaHeader × Delta)
  unfolding read_start decode_one read_delta
  decode_delta b = do
    rest ← read_start delta_type b
    header ← decode_one codec.delta_header rest
    ds ← read_delta (suc (length b)) header.1
    ok (header.0, ds)

pub Result-cases {ℓ} :
    {A : Type ℓ} (r : Result A) → ((a : A) × (r ≡ ok a)) ⊎ ((e : Error) × (r ≡ err e))
Result-cases (ok a) = inl (a, refl)
Result-cases (err e) = inr (e, refl)
