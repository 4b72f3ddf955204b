-- ===== src/Agent.antt =====
-- agent/client/listener.go: a listener connects to the server, and again when its session fails.
use pico.Prelude.{ℕ, zero, suc, Bool, true, false, Option, none, some}
use pico.Backoff.{Duration, Backoff, new_backoff, wait}
use pico.Websocket.{Dialed, DialResult, connected, retryable_error, final_error, dial_result}
pub mod Reconnect

abbrev pub min_reconnect_backoff : Duration
min_reconnect_backoff = 100000000

abbrev pub max_reconnect_backoff : Duration
max_reconnect_backoff = 15000000000

-- What a dial and the wait after it meet: what the dialer gives, the session that yamux makes of the
-- connection, the random draw, and whether the timer fires before the context is done.
pub record Moment : Type 0 where
  pub dialed : Dialed
  pub client : Option ℕ
  pub jitter : Duration → Duration
  pub fires : Bool

-- What `connect` returns: a session, the error of a dial, or that of the context.
pub data Connecting : Type 0 where
  unfinished panicked refused context_done : Connecting
  session : ℕ → Connecting

abbrev pub client_session : Option ℕ → Connecting
client_session none = panicked
client_session (some s) = session s

-- The loop of `connect`, on fuel.
unfoldable pub connect_loop : ℕ → (ℕ → Moment) → Backoff → ℕ → Connecting
unfolding dial_result wait
connect_loop zero at b n = unfinished
connect_loop (suc fuel) at b n = elim (dial_result (at n).dialed) [
  | connected ↦ client_session (at n).client
  | final_error ↦ refused
  | retryable_error ↦
      let (waited, b') = wait (at n).jitter (at n).fires b in
      elim waited [ true ↦ connect_loop fuel at b' (suc n) | false ↦ context_done ]
]

-- `connect`
unfoldable pub connect : ℕ → (ℕ → Moment) → Connecting
unfolding connect_loop new_backoff
connect fuel at = connect_loop fuel at (new_backoff 0 min_reconnect_backoff max_reconnect_backoff) 0

-- A turn of the loop of `Accept`: what the session gives, whether the caller's context is done or
-- the listener closed, and what a reconnect meets.
pub record Turn : Type 0 where
  pub accepted : Option ℕ
  pub is_done : Bool
  pub dials : ℕ → Moment

-- The connection and the session that the listener keeps; or the error of the session or of
-- `connect`.
pub data Accepting : Type 0 where
  no_turn : Accepting
  accepted_conn : ℕ → ℕ → Accepting
  session_failed : ℕ → Accepting
  connect_failed : ℕ → Connecting → Accepting

-- `Accept` and `AcceptWithContext`, on fuel for the turns and for the dials of each.
unfoldable pub accept : ℕ → ℕ → (ℕ → Turn) → ℕ → ℕ → Accepting
unfolding connect
accept zero dials at s n = no_turn
accept (suc fuel) dials at s n = elim (at n).accepted [
  | some conn ↦ accepted_conn conn s
  | none ↦ elim (at n).is_done [
    | true ↦ session_failed s
    | false ↦ elim (connect dials (at n).dials) [
      | session s' ↦ accept fuel dials at s' (suc n)
      | unfinished ↦ connect_failed s unfinished
      | panicked ↦ connect_failed s panicked
      | refused ↦ connect_failed s refused
      | context_done ↦ connect_failed s context_done
    ]
  ]
]
