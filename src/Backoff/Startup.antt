-- ===== src/Backoff/Startup.antt =====
-- server/gossip/gossip.go: JoinOnStartup, which tries to join again after a backoff.
use pico.Prelude.{ℕ, zero, suc, GoString, Bool, true, false, List, Option, none, some}
use pico.Gossip.Types.{Time}
use pico.Gossip.State.{ClusterState}
use pico.Gossip.Protocol.{Result, ok, err}
use pico.Gossip.Streams.{StreamNetwork, Joining, join}
use pico.Backoff.{Duration, Backoff, new_backoff, wait}
pub mod Bounded

abbrev pub second : Duration
second = 1000000000

abbrev pub minute : Duration
minute = 60000000000

-- What an attempt and the wait after it meet: the network, the state that the gossiper has then,
-- the time, the random draw, and whether the timer fires before the context is done.
pub record Moment : Type 0 where
  pub net : StreamNetwork
  pub state : ClusterState
  pub now : Time
  pub jitter : Duration → Duration
  pub fires : Bool

-- What comes of the loop; a panic is one of `Join`.
pub data Startup : Type 0 where
  unfinished panicked : Startup
  returned : Result (List GoString) → Startup

abbrev pub attempt : Moment → List GoString → Option (Joining × Result (List GoString))
attempt m addrs = join m.net m.state m.now addrs

-- The loop, on fuel.
unfoldable pub join_loop : ℕ → (ℕ → Moment) → List GoString → Backoff → ℕ → Startup
unfolding wait
join_loop zero at addrs b n = unfinished
join_loop (suc fuel) at addrs b n = elim (attempt (at n) addrs) [
  | none ↦ panicked
  | some (j, ok ids) ↦ returned (ok ids)
  | some (j, err e) ↦
      let (waited, b') = wait (at n).jitter (at n).fires b in
      elim waited [ true ↦ join_loop fuel at addrs b' (suc n) | false ↦ returned (err e) ]
]

-- `JoinOnStartup`
unfoldable pub join_on_startup : ℕ → (ℕ → Moment) → List GoString → Startup
unfolding join_loop new_backoff
join_on_startup fuel at addrs = join_loop fuel at addrs (new_backoff 5 second minute) 0
