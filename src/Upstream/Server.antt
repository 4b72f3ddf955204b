-- ===== src/Upstream/Server.antt =====
-- server/upstream/auth.go and server.go: how an upstream connects, and its session.
use pico.Prelude.{
  ℕ, GoString, codes, Bool, true, false, List, [], ◌∷◌, Option, none, some, str_dec, ◌==◌, ◌>>=◌,
}
use pico.Gossip.Types.{Time}
use pico.Auth.{
  EndpointToken, endpoint_permitted, Verified, verified, rejected, invalid_token, expired_token,
  other_error,
}
use pico.Cluster.State.{State}
use pico.Upstream.Manager.{Conn, Manager, ManagerCall, add_conn}

-- An error reply to the upstream: the status, and the message if there is one.
pub record Reply : Type 0 where
  pub status : ℕ
  pub message : GoString

pub data Checked {ℓ} (A : Type ℓ) : Type ℓ where
  passed : A → Checked A
  replied : Reply → Checked A

-- `strings.Cut(authorization, " ")`
unfoldable pub cut_space : GoString → Option (GoString × GoString)
cut_space [] = none
cut_space (c ∷ s) = elim (c == 32) [
  | true ↦ some ([], s)
  | false ↦ elim (cut_space s) [ none ↦ none | some parts ↦ some (c ∷ parts.0, parts.1) ]
]

-- `parseToken`, on the Authorization header.
unfoldable pub parse_token : GoString → Checked GoString
unfolding cut_space
parse_token authorization = elim (cut_space authorization) [
  | none ↦ replied (record { status = 401; message = codes "missing authorization" })
  | some (auth_type, token) ↦ elim (str_dec auth_type (codes "Bearer")) [
    | no ne ↦ replied (record { status = 401; message = codes "unsupported auth type" })
    | yes p ↦ passed token
  ]
]

-- `AuthMiddleware.VerifyEndpointToken`: the token that the request goes on with.
unfoldable pub verify_token : (GoString → Verified) → GoString → Checked EndpointToken
unfolding parse_token
verify_token verifier authorization = elim (parse_token authorization) [
  | replied r ↦ replied r
  | passed token ↦ elim (verifier token) [
    | verified t ↦ passed t
    | rejected invalid_token ↦ replied (record { status = 401; message = codes "invalid token" })
    | rejected expired_token ↦ replied (record { status = 401; message = codes "expired token" })
    | rejected other_error ↦ replied (record { status = 500; message = [] })
  ]
]

-- The middleware is used if there is a verifier; without one the request has no token.
unfoldable pub token_of : Option (GoString → Verified) → GoString → Checked (Option EndpointToken)
unfolding verify_token
token_of none authorization = passed none
token_of (some verifier) authorization = elim (verify_token verifier authorization) [
  | passed t ↦ passed (some t)
  | replied r ↦ replied r
]

abbrev pub is_permitted : Option EndpointToken → GoString → Bool
is_permitted none endpoint_id = true
is_permitted (some t) endpoint_id = endpoint_permitted t endpoint_id

-- The session's deadline: the token's expiry, if it has one; 0 is none.
abbrev pub deadline : Option EndpointToken → Time
deadline none = 0
deadline (some t) = t.expiry

-- `upstreamRoute` up to `AddConn`: what the request is replied, or the session with its deadline.
-- A failed upgrade has sent its own reply.
pub data Connected : Type 0 where
  refused : Reply → Connected
  not_upgraded : Connected
  connected : Manager → State → List ManagerCall → Time → Connected

unfoldable pub connect :
    Option (GoString → Verified)
    → GoString
    → (upgrade : Bool) → Manager
    → State
    → Conn
    → Option Connected
unfolding token_of
connect verifier authorization upgrade m s u = elim (token_of verifier authorization) [
  | replied r ↦ some (refused r)
  | passed token ↦ elim (is_permitted token u.endpoint_id) [
    | false ↦ some (refused (record { status = 401; message = codes "endpoint not permitted" }))
    | true ↦ elim upgrade [
      | false ↦ some not_upgraded
      | true ↦ do (m', s', calls) ← add_conn m s u; some (connected m' s' calls (deadline token))
    ]
  ]
]

-- What `AcceptStreamWithContext` gives.
pub data Accepted : Type 0 where
  stream : Accepted
  closed canceled deadline_exceeded failed : Accepted

-- The loop that waits for the end of a session: the error that ends it, and what comes after it.
unfoldable pub wait_session : List Accepted → Option (Accepted × List Accepted)
wait_session [] = none
wait_session (stream ∷ rest) = wait_session rest
wait_session (closed ∷ rest) = some (closed, rest)
wait_session (canceled ∷ rest) = some (canceled, rest)
wait_session (deadline_exceeded ∷ rest) = some (deadline_exceeded, rest)
wait_session (failed ∷ rest) = some (failed, rest)
