-- ===== src/Agent/Reconnect.antt =====
-- agent/client/listener.go: a listener does not give up while its dials can be retried.
use pico.Prelude.{
  ℕ, zero, suc, Bool, true, false, none, some, ◌<◌, ◌+◌, ◌≡◌, refl, ◌∙◌, ap, arith, subst, List, [],
  ◌∷◌, length,
}
use pico.Backoff.{Duration, Backoff, next_wait, new_backoff, wait}
use pico.Websocket.{connected, retryable_error, final_error, dial_result}
use pico.Agent.{
  Moment, Connecting, unfinished, panicked, refused, context_done, session, connect_loop, connect,
  min_reconnect_backoff, max_reconnect_backoff, Turn, accept, accepted_conn,
}

-- The dials from the `n`th on, `k` of them, can be retried, and the timer fires after each.
abbrev pub AllRetried : (ℕ → Moment) → ℕ → ℕ → Type 0
AllRetried at n zero = Unit
AllRetried at n (suc k) =
    (dial_result (at n).dialed ≡ retryable_error) × ((at n).fires ≡ true) × AllRetried at (suc n) k

-- The outcome of a dial that is the last.
abbrev pub IsOutcome : Moment → Connecting → Type 0
IsOutcome m unfinished = ⊥
IsOutcome m panicked = (dial_result m.dialed ≡ connected) × (m.client ≡ none)
IsOutcome m refused = dial_result m.dialed ≡ final_error
IsOutcome m context_done = (dial_result m.dialed ≡ retryable_error) × (m.fires ≡ false)
IsOutcome m (session s) = (dial_result m.dialed ≡ connected) × (m.client ≡ some s)

-- Without a limit of retries, each wait is that of the timer.
abbrev waited : (Duration → Duration) → Backoff → Backoff
waited jitter b = record b { attempts = suc b.attempts; last_backoff = next_wait jitter b }

wait-unlimited :
    (jitter : Duration → Duration) (fires : Bool) (b : Backoff)
    → b.retries ≡ 0
    → wait jitter fires b ≡ (fires, waited jitter b)
unfolding wait
wait-unlimited jitter fires b unlimited = ground (arith, unlimited)

last-IsOutcome :
    (fuel : ℕ) (at : ℕ → Moment) (b : Backoff) (n : ℕ) (r : Connecting)
    → b.retries ≡ 0
    → IsOutcome (at n) r
    → connect_loop (suc fuel) at b n ≡ r
unfolding connect_loop
last-IsOutcome fuel at b n unfinished unlimited is = absurd is
last-IsOutcome fuel at b n panicked unlimited (dials, client) =
    rw (connect_loop, dials, client) refl
last-IsOutcome fuel at b n refused unlimited dials = rw (connect_loop, dials) refl
last-IsOutcome fuel at b n (session s) unlimited (dials, client) =
    rw (connect_loop, dials, client) refl
last-IsOutcome fuel at b n context_done unlimited (dials, late) =
    rw (connect_loop, dials, wait-unlimited (at n).jitter (at n).fires b unlimited, late) refl

connect_loop-retry :
    (fuel : ℕ) (at : ℕ → Moment) (b b' : Backoff) (n : ℕ)
    → dial_result (at n).dialed ≡ retryable_error
    → wait (at n).jitter (at n).fires b ≡ (true, b')
    → connect_loop (suc fuel) at b n ≡ connect_loop fuel at b' (suc n)
unfolding connect_loop
connect_loop-retry fuel at b b' n dials waits =
    rw (connect_loop, dials, waits) (ap (λ w. connect_loop fuel at w.1 (suc n)) waits)

connect_loop_lem :
    (k fuel : ℕ) (at : ℕ → Moment) (b : Backoff) (n : ℕ) (r : Connecting)
    → b.retries ≡ 0
    → AllRetried at n k
    → IsOutcome (at (n + k)) r
    → k < fuel
    → connect_loop fuel at b n ≡ r
connect_loop_lem k zero at b n r unlimited retried is lt = absurd (omega (arith, lt))
connect_loop_lem zero (suc fuel) at b n r unlimited retried is lt =
    last-IsOutcome fuel at b n r unlimited (subst (λ i. IsOutcome (at i) r) (omega arith) is)
connect_loop_lem (suc k) (suc fuel) at b n r unlimited (dials, fires, retried) is lt =
    let b' = waited (at n).jitter b in
    connect_loop-retry fuel at b b' n dials
      (wait-unlimited (at n).jitter (at n).fires b unlimited ∙ ap (λ f. (f, b')) fires)
    ∙ connect_loop_lem k fuel at b' (suc n) r unlimited retried
        (subst (λ i. IsOutcome (at i) r) (omega arith) is) (omega (arith, lt))

connect-unlimited :
    (at : ℕ → Moment) (k fuel : ℕ) (r : Connecting)
    → AllRetried at 0 k
    → IsOutcome (at k) r
    → k < fuel
    → connect fuel at ≡ r
unfolding connect new_backoff
connect-unlimited at k fuel r retried is lt =
    connect_loop_lem k fuel at (new_backoff 0 min_reconnect_backoff max_reconnect_backoff) 0 r refl
      retried (subst (λ i. IsOutcome (at i) r) (omega arith) is) lt

-- From the `n`th turn on, one session after the other fails while nothing is done or closed, and
-- after some dials that are retried there is the next.
abbrev pub AllReplaced : ℕ → (ℕ → Turn) → ℕ → List ℕ → Type 0
AllReplaced dials at n [] = Unit
AllReplaced dials at n (s ∷ ss) =
    ((at n).accepted ≡ none)
    × ((at n).is_done ≡ false)
    × ((k : ℕ) × AllRetried (at n).dials 0 k × IsOutcome ((at n).dials k) (session s) × (k < dials))
    × AllReplaced dials at (suc n) ss

abbrev pub last_session : ℕ → List ℕ → ℕ
last_session s [] = s
last_session s (s' ∷ ss) = last_session s' ss

accept_lem :
    (ss : List ℕ) (fuel dials : ℕ) (at : ℕ → Turn) (s n conn : ℕ)
    → AllReplaced dials at n ss
    → (at (n + length ss)).accepted ≡ some conn
    → length ss < fuel
    → accept fuel dials at s n ≡ accepted_conn conn (last_session s ss)
unfolding accept
accept_lem ss zero dials at s n conn replaced accepts lt = absurd (omega (arith, lt))
accept_lem [] (suc fuel) dials at s n conn replaced accepts lt =
    let now : (at n).accepted ≡ some conn =
      subst (λ i. (at i).accepted ≡ some conn) (omega arith) accepts in
    rw (accept, now) refl
accept_lem (s' ∷ ss) (suc fuel) dials at s n conn (fails, idle, (k, retried, is, few), replaced)
      accepts lt =
    let connects = connect-unlimited (at n).dials k dials (session s') retried is few in
    rw (accept, fails, idle, connects)
      (accept_lem ss fuel dials at s' (suc n) conn replaced
        (subst (λ i. (at i).accepted ≡ some conn) (omega arith) accepts) (omega (arith, lt)))

-- Let some sessions of a listener fail, one after the other, while it is not closed and the
-- caller's context is not done; let each be replaced after any number of dials that can be
-- retried, each followed by a wait that ends, by one that succeeds, within the fuel for dials;
-- and let the last session give a connection. Then Accept, with fuel for one turn more than the
-- sessions that failed, returns that connection, and the listener keeps that session.
pub accept-reconnects :
    (ss : List ℕ) (fuel dials : ℕ) (at : ℕ → Turn) (s conn : ℕ)
    → AllReplaced dials at 0 ss
    → (at (length ss)).accepted ≡ some conn
    → length ss < fuel
    → accept fuel dials at s 0 ≡ accepted_conn conn (last_session s ss)
accept-reconnects ss fuel dials at s conn replaced accepts lt =
    accept_lem ss fuel dials at s 0 conn replaced
      (subst (λ i. (at i).accepted ≡ some conn) (omega arith) accepts) lt
