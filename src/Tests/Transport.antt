-- ===== src/Tests/Transport.antt =====
-- pkg/websocket: three writes, the first read in two chunks. server/gossip: attempts to join.
-- agent/client: a listener that reconnects.
use pico.Prelude.{ℕ, zero, suc, true, false, ◌≡◌, ◌≤◌, refl, List, [], ◌∷◌, none, some, arith, ltb}
use pico.Agent
use pico.Agent.{Turn, accept, accepted_conn}
use pico.Agent.Reconnect.{accept-reconnects}
use pico.Backoff.Startup.{Moment, join_on_startup}
use pico.Backoff.Startup.Bounded.{AllRetried, IsResult, join_on_startup-Ends}
use pico.Tests.Packets.{b_state}
use pico.Tests.Replicas.{a_addr}
use pico.Tests.Streams.{net}
use pico.Websocket.{
  Bytes, Message, binary, end_of_file, new_conn, dialed, bad_response, dial_result,
}
use pico.Websocket.Stream.{at_rest, read_all, concat, read_all-delivery}

abbrev writes : List Bytes
writes = (1 ∷ 2 ∷ 3 ∷ []) ∷ [] ∷ (4 ∷ []) ∷ []

abbrev messages : List Message
messages =
    binary (
      record { bytes = 1 ∷ 2 ∷ []; error = none }
      ∷ record { bytes = 3 ∷ []; error = some end_of_file }
      ∷ [])
    ∷ binary (record { bytes = []; error = some end_of_file } ∷ [])
    ∷ binary (record { bytes = 4 ∷ []; error = none } ∷ [])
    ∷ []

read_all-delivery_example : read_all 5 (new_conn messages) ≡ (concat writes, at_rest)
read_all-delivery_example =
    read_all-delivery writes messages 5 (refl, refl, (refl, refl, (refl, tt, refl))) (omega arith)

-- No address resolves, and the fourth timer does not fire.
abbrev moment : ℕ → Moment
moment n = record { net = net; state = b_state; now = n; jitter = λ d. d; fires = ltb n 3 }

join_on_startup-Ends_example :
    (k : ℕ) × AllRetried moment (a_addr ∷ []) 0 k
    × (k ≤ 6)
    × IsResult (moment k) (a_addr ∷ []) (k ≡ 6) (join_on_startup 7 moment (a_addr ∷ []))
join_on_startup-Ends_example = join_on_startup-Ends moment (a_addr ∷ []) 7 (omega arith)

-- The first session fails; the server refuses once for the time being, and then takes the listener.
abbrev dial_moment : ℕ → Agent.Moment
dial_moment zero = record {
  dialed = bad_response 503;
  client = none;
  jitter = λ d. d;
  fires = true;
}
dial_moment (suc n) = record { dialed = dialed; client = some 8; jitter = λ d. d; fires = true }

abbrev turn : ℕ → Turn
turn zero = record { accepted = none; is_done = false; dials = dial_moment }
turn (suc n) = record { accepted = some 5; is_done = false; dials = dial_moment }

accept-reconnects_example : accept 2 2 turn 7 0 ≡ accepted_conn 5 8
unfolding dial_result
accept-reconnects_example =
    accept-reconnects (8 ∷ []) 2 2 turn 7 5
      (refl, refl, (1, (refl, refl, tt), (refl, refl), omega arith), tt) refl (omega arith)
