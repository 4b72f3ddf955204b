-- ===== src/Websocket.antt =====
-- pkg/websocket/conn.go: a byte stream over WebSocket messages.
use pico.Prelude.{
  ℕ, zero, suc, GoString, Bool, true, false, List, [], ◌∷◌, ◌++◌, Option, none, some, ◌==◌, ◌||◌,
  if◌then◌else◌,
}
pub mod Stream

abbrev pub Bytes : Type 0
Bytes = List ℕ

-- An error of the library: the end of a message, a `CloseError`, or another.
pub data ReadError : Type 0 where
  end_of_file close_error other_error : ReadError

-- What one call of a message's reader gives.
pub record Chunk : Type 0 where
  pub bytes : Bytes
  pub error : Option ReadError

-- What one call of `NextReader` gives: a binary message, as the results of the calls of its reader; a
-- message of another type; or an error.
pub data Message : Type 0 where
  binary : List Chunk → Message
  other_type : ℕ → Message
  no_reader : ReadError → Message

-- `net.ErrClosed`, an error of the library as it is, or the error of an unexpected type.
pub data ConnError : Type 0 where
  err_closed : ConnError
  library_error : ReadError → ConnError
  unexpected_type : ℕ → ConnError

-- The connection: what is left of the reader, if there is one, and the messages to come.
pub record Conn : Type 0 where
  pub reader : Option (List Chunk)
  pub messages : List Message

-- `New`
abbrev pub new_conn : List Message → Conn
new_conn messages = record { reader = none; messages = messages }

-- What `Read` does: it waits for a message, or returns.
pub data Reading : Type 0 where
  waiting : Reading
  returned : Bytes → Option ConnError → Conn → Reading

-- `errors.As(err, &closeErr)`
abbrev pub conn_error : ReadError → ConnError
conn_error close_error = err_closed
conn_error end_of_file = library_error end_of_file
conn_error other_error = library_error other_error

-- One call of the reader; beyond the last chunk it gives the end.
abbrev pub read_chunk : List Chunk → Chunk × List Chunk
read_chunk [] = (record { bytes = []; error = some end_of_file }, [])
read_chunk (c ∷ cs) = (c, cs)

abbrev pub with_reader : Option (List Chunk) → List Message → Conn
with_reader reader messages = record { reader = reader; messages = messages }

-- The rest of the loop's body, once there is a reader; `none` goes on to the next message.
unfoldable pub read_message : List Chunk → List Message → Option Reading
read_message chunks messages =
    let (c, rest) = read_chunk chunks in
    elim c.bytes [
      | b ∷ bs ↦ elim c.error [
        | none ↦ some (returned (b ∷ bs) none (with_reader (some rest) messages))
        | some end_of_file ↦ some (returned (b ∷ bs) none (with_reader none messages))
        | some close_error ↦
            some (returned (b ∷ bs) (some (library_error close_error)) (with_reader none messages))
        | some other_error ↦
            some (returned (b ∷ bs) (some (library_error other_error)) (with_reader none messages))
      ]
      | [] ↦ elim c.error [
        | none ↦ some (returned [] none (with_reader (some rest) messages))
        | some end_of_file ↦ none
        | some close_error ↦ some (returned [] (some err_closed) (with_reader (some rest) messages))
        | some other_error ↦
            some (returned [] (some (library_error other_error)) (with_reader (some rest) messages))
      ]
    ]

-- The loop from where there is no reader.
unfoldable pub read_next : List Message → Reading
unfolding read_message
read_next [] = waiting
read_next (no_reader e ∷ messages) = returned [] (some (conn_error e)) (new_conn messages)
read_next (other_type t ∷ messages) = returned [] (some (unexpected_type t)) (new_conn messages)
read_next (binary chunks ∷ messages) = elim (read_message chunks messages) [
  | some reading ↦ reading
  | none ↦ read_next messages
]

-- `Read`
unfoldable pub read : Conn → Reading
unfolding read_next read_message
read c = elim c.reader [
  | none ↦ read_next c.messages
  | some chunks ↦ elim (read_message chunks c.messages) [
    | some reading ↦ reading
    | none ↦ read_next c.messages
  ]
]

-- `Write`, by what `WriteMessage` gives: the count of bytes, or an error.
unfoldable pub write : Option ReadError → ℕ → ℕ × Option ConnError
write none count = (count, none)
write (some e) count = (0, some (conn_error e))

-- `retryableStatusCodes`
abbrev pub is_retryable : ℕ → Bool
is_retryable status =
    status == 408
    || status == 429
    || status == 500
    || status == 502
    || status == 503
    || status == 504

-- `Dial`, by what the dialer gives: success, an error without a response, or a response with a
-- status. The error tells whether the dial is to be retried.
pub data Dialed : Type 0 where
  dialed : Dialed
  no_response : Dialed
  bad_response : ℕ → Dialed

pub data DialResult : Type 0 where
  connected retryable_error final_error : DialResult

unfoldable pub dial_result : Dialed → DialResult
dial_result dialed = connected
dial_result no_response = retryable_error
dial_result (bad_response status) = if is_retryable status then retryable_error else final_error
