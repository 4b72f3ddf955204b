-- ===== src/Websocket/Stream.antt =====
-- pkg/websocket/conn.go: the bytes that Read gives, call after call.
use pico.Prelude.{
  ℕ, zero, suc, ◌+◌, ◌≤◌, ◌<◌, ◌≡◌, ◌∙◌, refl, sym, ap, List, [], ◌∷◌, ◌++◌, Option, none, some,
  length, arith, append_assoc, Option-cases, inl, inr, subst, ◌⊎◌,
}
use pico.Websocket.{
  Bytes, Chunk, Message, Conn, Reading, ConnError, ReadError, end_of_file, close_error, other_error,
  binary, other_type, no_reader, waiting, returned, new_conn, read_message, read_next, read,
  with_reader,
}

-- Why calls of `Read` stop: there were as many as asked for, the next one waits, or one fails.
pub data Stop : Type 0 where
  enough at_rest : Stop
  failed : ConnError → Stop

unfoldable pub read_all : ℕ → Conn → Bytes × Stop
unfolding read
read_all zero c = ([], enough)
read_all (suc fuel) c = elim (read c) [
  | waiting ↦ ([], at_rest)
  | returned b none c' ↦ let (bs, stop) = read_all fuel c' in (b ++ bs, stop)
  | returned b (some e) c' ↦ (b, failed e)
]

-- The bytes of a message, and that its reader gives them without an error but the end.
abbrev pub payload : List Chunk → Bytes
payload [] = []
payload (c ∷ cs) = c.bytes ++ payload cs

abbrev pub IsLast : Option ReadError → List Chunk → Type 0 → Type 0
IsLast none cs others = others
IsLast (some end_of_file) cs others = cs ≡ []
IsLast (some close_error) cs others = ⊥
IsLast (some other_error) cs others = ⊥

abbrev pub IsWhole : List Chunk → Type 0
IsWhole [] = Unit
IsWhole (c ∷ cs) = IsLast c.error cs (IsWhole cs)

abbrev pub AreWhole : List Message → Type 0
AreWhole [] = Unit
AreWhole (binary cs ∷ ms) = IsWhole cs × AreWhole ms
AreWhole (other_type t ∷ ms) = ⊥
AreWhole (no_reader e ∷ ms) = ⊥

abbrev pub payloads : List Message → Bytes
payloads [] = []
payloads (binary cs ∷ ms) = payload cs ++ payloads ms
payloads (other_type t ∷ ms) = []
payloads (no_reader e ∷ ms) = []

-- The calls of readers that there can be.
abbrev pub calls : List Message → ℕ
calls [] = 0
calls (binary cs ∷ ms) = length cs + calls ms
calls (other_type t ∷ ms) = 0
calls (no_reader e ∷ ms) = 0

abbrev pub chunks_of : Option (List Chunk) → List Chunk
chunks_of none = []
chunks_of (some cs) = cs

abbrev pub IsSound : Conn → Type 0
IsSound c = IsWhole (chunks_of c.reader) × AreWhole c.messages

abbrev pub pending : Conn → Bytes
pending c = payload (chunks_of c.reader) ++ payloads c.messages

abbrev pub calls_left : Conn → ℕ
calls_left c = length (chunks_of c.reader) + calls c.messages

-- A call that gives the first of the bytes, and leaves the others.
abbrev Gives : Bytes → ℕ → Reading → Type 0
Gives bytes n waiting = bytes ≡ []
Gives bytes n (returned b none c) = IsSound c × (bytes ≡ b ++ pending c) × (calls_left c < n)
Gives bytes n (returned b (some e) c) = ⊥

abbrev GivesOr : Bytes → ℕ → List Message → Option Reading → Type 0
GivesOr bytes n ms none = bytes ≡ payloads ms
GivesOr bytes n ms (some r) = Gives bytes n r

read_one-GivesOr :
    (b : Bytes) (e : Option ReadError) (cs : List Chunk) (ms : List Message)
    → IsLast e cs (IsWhole cs)
    → AreWhole ms
    → GivesOr
        ((b ++ payload cs) ++ payloads ms)
        (suc (length cs) + calls ms)
        ms
        (read_message (record { bytes = b; error = e } ∷ cs) ms)
unfolding read_message
read_one-GivesOr [] none cs ms whole all = ((whole, all), refl, omega arith)
read_one-GivesOr [] (some end_of_file) cs ms last all = ap (λ ds. payload ds ++ payloads ms) last
read_one-GivesOr [] (some close_error) cs ms last all = absurd last
read_one-GivesOr [] (some other_error) cs ms last all = absurd last
read_one-GivesOr (x ∷ b) none cs ms whole all =
    ((whole, all), append_assoc (x ∷ b) (payload cs) (payloads ms), omega arith)
read_one-GivesOr (x ∷ b) (some end_of_file) cs ms last all = (
  (tt, all),
  append_assoc (x ∷ b) (payload cs) (payloads ms)
      ∙ ap (λ ds. (x ∷ b) ++ (payload ds ++ payloads ms)) last,
  omega arith,
)
read_one-GivesOr (x ∷ b) (some close_error) cs ms last all = absurd last
read_one-GivesOr (x ∷ b) (some other_error) cs ms last all = absurd last

read_message-GivesOr :
    (cs : List Chunk) (ms : List Message)
    → IsWhole cs
    → AreWhole ms
    → GivesOr (payload cs ++ payloads ms) (length cs + calls ms) ms (read_message cs ms)
unfolding read_message
read_message-GivesOr [] ms whole all = refl
read_message-GivesOr (c ∷ cs) ms whole all = read_one-GivesOr c.bytes c.error cs ms whole all

-- More calls are left before than after.
Gives-more : (bytes : Bytes) (n m : ℕ) (r : Reading) → n ≤ m → Gives bytes n r → Gives bytes m r
Gives-more bytes n m waiting le g = g
Gives-more bytes n m (returned b none c) le (sound, split, lt) =
    (sound, split, omega (arith, lt, le))
Gives-more bytes n m (returned b (some e) c) le g = g

read_next-Gives : (ms : List Message) → AreWhole ms → Gives (payloads ms) (calls ms) (read_next ms)
unfolding read_next
read_next-Gives [] all = refl
read_next-Gives (other_type t ∷ ms) all = absurd all
read_next-Gives (no_reader e ∷ ms) all = absurd all
read_next-Gives (binary cs ∷ ms) (whole, all) =
    let step = read_message-GivesOr cs ms whole all in
    elim (Option-cases (read_message cs ms)) [
      | inr (r, found) ↦
          rw (read_next, found)
            (subst (GivesOr (payload cs ++ payloads ms) (length cs + calls ms) ms) found step)
      | inl on ↦
          let same : payload cs ++ payloads ms ≡ payloads ms =
            subst (GivesOr (payload cs ++ payloads ms) (length cs + calls ms) ms) on step in
          let rest : Gives (payloads ms) (length cs + calls ms) (read_next ms) =
            Gives-more (payloads ms) (calls ms) (length cs + calls ms) (read_next ms) (omega arith)
              (read_next-Gives ms all) in
          rw (read_next, on)
            (subst (λ b. Gives b (length cs + calls ms) (read_next ms)) (sym same) rest)
    ]

-- From a reader, on to the messages when it is at its end.
reader-Gives :
    (cs : List Chunk) (ms : List Message) (r : Option Reading)
    → AreWhole ms
    → GivesOr (payload cs ++ payloads ms) (length cs + calls ms) ms r
    → Gives
        (payload cs ++ payloads ms)
        (length cs + calls ms)
        (elim r [ some reading ↦ reading | none ↦ read_next ms ])
reader-Gives cs ms (some r) all step = step
reader-Gives cs ms none all same =
    subst (λ b. Gives b (length cs + calls ms) (read_next ms)) (sym same)
      (Gives-more (payloads ms) (calls ms) (length cs + calls ms) (read_next ms) (omega arith)
        (read_next-Gives ms all))

read-Gives :
    (reader : Option (List Chunk)) (ms : List Message)
    → IsSound (with_reader reader ms)
    → Gives
        (pending (with_reader reader ms))
        (calls_left (with_reader reader ms))
        (read (with_reader reader ms))
unfolding read
read-Gives none ms (whole, all) =
    Gives-more (payloads ms) (calls ms) (0 + calls ms) (read_next ms) (omega arith)
      (read_next-Gives ms all)
read-Gives (some cs) ms (whole, all) =
    reader-Gives cs ms (read_message cs ms) all (read_message-GivesOr cs ms whole all)

Reading-cases :
    (r : Reading)
    → (r ≡ waiting) ⊎ ((b : Bytes) × (e : Option ConnError) × (c : Conn) × (r ≡ returned b e c))
Reading-cases waiting = inl refl
Reading-cases (returned b e c) = inr (b, e, c, refl)

pub read_all-pending :
    (fuel : ℕ) (c : Conn) → IsSound c → calls_left c < fuel → read_all fuel c ≡ (pending c, at_rest)
unfolding read_all
read_all-pending zero c sound lt = absurd (omega (arith, lt))
read_all-pending (suc fuel) c sound lt =
    let step = read-Gives c.reader c.messages sound in
    elim (Reading-cases (read c)) [
      | inl over ↦
          rw (read_all, over)
            (ap (λ x. (x, at_rest)) (sym (subst (Gives (pending c) (calls_left c)) over step)))
      | inr (b, some e, c', fails) ↦ absurd (subst (Gives (pending c) (calls_left c)) fails step)
      | inr (b, none, c', gave) ↦
          let (sound', split, fewer) = subst (Gives (pending c) (calls_left c)) gave step in
          let ih = read_all-pending fuel c' sound' (omega (arith, lt, fewer)) in
          rw (read_all, gave) (ap (λ r. (b ++ r.0, r.1)) ih ∙ ap (λ x. (x, at_rest)) (sym split))
    ]

-- The messages of a peer that made these calls of `Write`, each of which succeeded: each message
-- comes in chunks, with the end alone or with the last of them.
abbrev pub IsDelivery : List Bytes → List Message → Type 0
IsDelivery [] ms = ms ≡ []
IsDelivery (w ∷ ws) [] = ⊥
IsDelivery (w ∷ ws) (binary cs ∷ ms) = (payload cs ≡ w) × IsWhole cs × IsDelivery ws ms
IsDelivery (w ∷ ws) (other_type t ∷ ms) = ⊥
IsDelivery (w ∷ ws) (no_reader e ∷ ms) = ⊥

abbrev pub concat : List Bytes → Bytes
concat [] = []
concat (w ∷ ws) = w ++ concat ws

delivered :
    (ws : List Bytes) (ms : List Message)
    → IsDelivery ws ms
    → AreWhole ms × (payloads ms ≡ concat ws)
delivered [] [] d = (tt, refl)
delivered [] (m ∷ ms) d = absurd (ground (arith, d))
delivered (w ∷ ws) [] d = absurd d
delivered (w ∷ ws) (binary cs ∷ ms) (same, whole, d) =
    let (all, rest) = delivered ws ms d in
    ((whole, all), ap (λ x. x ++ payloads ms) same ∙ ap (λ x. w ++ x) rest)
delivered (w ∷ ws) (other_type t ∷ ms) d = absurd d
delivered (w ∷ ws) (no_reader e ∷ ms) d = absurd d

-- Let each of the peer's writes come as one binary message, whose reader gives its bytes in
-- chunks, with the end alone or with the last of them, and no other error. Then the calls of Read
-- from a new connection, one more than the chunks at least, give the bytes of the writes, in
-- order and each once, without an error, and then Read waits for the next message.
pub read_all-delivery :
    (ws : List Bytes) (ms : List Message) (fuel : ℕ)
    → IsDelivery ws ms
    → calls ms < fuel
    → read_all fuel (new_conn ms) ≡ (concat ws, at_rest)
read_all-delivery ws ms fuel d lt =
    let (all, same) = delivered ws ms d in
    read_all-pending fuel (new_conn ms) (tt, all) (omega (arith, lt)) ∙ ap (λ x. (x, at_rest)) same
