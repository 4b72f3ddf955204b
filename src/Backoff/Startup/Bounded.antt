-- ===== src/Backoff/Startup/Bounded.antt =====
-- server/gossip/gossip.go: JoinOnStartup ends, and what it returns.
use pico.Prelude.{
  ℕ, zero, suc, GoString, Bool, true, false, List, Option, none, some, ◌+◌, ◌≤◌, ◌<◌, ◌≡◌, ◌⊎◌, inl,
  inr, refl, arith, Bool-cases, subst, sym, ap, ◌∙◌,
}
use pico.Gossip.Protocol.{Error, Result, ok, err}
use pico.Gossip.Streams.{Joining}
use pico.Backoff.{Duration, next_wait, Backoff, wait, new_backoff}
use pico.Backoff.Startup.{
  Moment, Startup, unfinished, panicked, returned, attempt, join_loop, join_on_startup, second,
  minute,
}

-- The attempts from the `n`th on, `k` of them, fail, and the timer fires after each.
abbrev pub AllRetried : (ℕ → Moment) → List GoString → ℕ → ℕ → Type 0
AllRetried at addrs n zero = Unit
AllRetried at addrs n (suc k) =
    ((j : Joining) × (e : Error) × (attempt (at n) addrs ≡ some (j, err e)))
    × ((at n).fires ≡ true)
    × AllRetried at addrs (suc n) k

-- The result is that of this attempt; it fails only without a retry.
abbrev pub IsResult : Moment → List GoString → Type 0 → Startup → Type 0
IsResult m addrs last unfinished = ⊥
IsResult m addrs last panicked = attempt m addrs ≡ none
IsResult m addrs last (returned (ok ids)) = (j : Joining) × (attempt m addrs ≡ some (j, ok ids))
IsResult m addrs last (returned (err e)) =
    ((j : Joining) × (attempt m addrs ≡ some (j, err e))) × (last ⊎ (m.fires ≡ false))

abbrev Ends : (ℕ → Moment) → List GoString → ℕ → ℕ → Startup → Type 0
Ends at addrs n left r =
    (k : ℕ) × AllRetried at addrs n k × (k ≤ left) × IsResult (at (n + k)) addrs (k ≡ left) r

attempt-cases :
    (o : Option (Joining × Result (List GoString)))
    → (o ≡ none)
      ⊎ ((j : Joining) × (ids : List GoString) × (o ≡ some (j, ok ids)))
      ⊎ ((j : Joining) × (e : Error) × (o ≡ some (j, err e)))
attempt-cases none = inl refl
attempt-cases (some (j, ok ids)) = inr (inl (j, ids, refl))
attempt-cases (some (j, err e)) = inr (inr (j, e, refl))

-- What `Wait` gives when the retries are used up, and before.
wait-over :
    (jitter : Duration → Duration) (fires : Bool) (b : Backoff)
    → 0 < b.retries
    → b.retries < b.attempts
    → wait jitter fires b ≡ (false, b)
unfolding wait
wait-over jitter fires b some_retries over = ground (arith, some_retries, over)

abbrev waited : (Duration → Duration) → Backoff → Backoff
waited jitter b = record b { attempts = suc b.attempts; last_backoff = next_wait jitter b }

wait-goes_on :
    (jitter : Duration → Duration) (fires : Bool) (b : Backoff)
    → b.attempts ≤ b.retries
    → wait jitter fires b ≡ (fires, waited jitter b)
unfolding wait
wait-goes_on jitter fires b le = ground (arith, le)

-- A wait ends, and the loop goes on.
join_loop-retry :
    (fuel : ℕ) (at : ℕ → Moment) (addrs : List GoString) (b b' : Backoff) (n : ℕ) (j : Joining)
    (e : Error)
    → attempt (at n) addrs ≡ some (j, err e)
    → wait (at n).jitter (at n).fires b ≡ (true, b')
    → join_loop (suc fuel) at addrs b n ≡ join_loop fuel at addrs b' (suc n)
unfolding join_loop
join_loop-retry fuel at addrs b b' n j e fails waits =
    rw (join_loop, fails, waits) (ap (λ w. join_loop fuel at addrs w.1 (suc n)) waits)

-- The moment after `suc k` attempts from the `n`th is that after `k` from the next.
shifted :
    (at : ℕ → Moment) (addrs : List GoString) (n k : ℕ) (left : ℕ) (r : Startup)
    → IsResult (at (suc n + k)) addrs (k ≡ left) r
    → IsResult (at (n + suc k)) addrs (suc k ≡ suc left) r
shifted at addrs n k left panicked is = ap (λ i. attempt (at i) addrs) (omega arith) ∙ is
shifted at addrs n k left (returned (ok ids)) (j, is) =
    (j, ap (λ i. attempt (at i) addrs) (omega arith) ∙ is)
shifted at addrs n k left unfinished is = absurd is
shifted at addrs n k left (returned (err e)) ((j, is), inl last) =
    ((j, ap (λ i. attempt (at i) addrs) (omega arith) ∙ is), inl (ap suc last))
shifted at addrs n k left (returned (err e)) ((j, is), inr late) = (
  (j, ap (λ i. attempt (at i) addrs) (omega arith) ∙ is),
  inr (ap (λ i. (at i).fires) (omega arith) ∙ late),
)

-- The first attempt is the last.
first :
    (at : ℕ → Moment) (addrs : List GoString) (n left : ℕ) (r : Startup)
    → IsResult (at n) addrs (0 ≡ left) r
    → Ends at addrs n left r
first at addrs n left r is =
    (0, tt, omega arith, subst (λ i. IsResult (at i) addrs (0 ≡ left) r) (omega arith) is)

-- Unless the attempt fails, it is the last.
attempt-Ends :
    (at : ℕ → Moment) (addrs : List GoString) (b : Backoff) (n left fuel : ℕ)
    → ((j : Joining) (e : Error)
        → attempt (at n) addrs ≡ some (j, err e)
        → Ends at addrs n left (join_loop (suc fuel) at addrs b n))
    → Ends at addrs n left (join_loop (suc fuel) at addrs b n)
unfolding join_loop
attempt-Ends at addrs b n left fuel failed = elim (attempt-cases (attempt (at n) addrs)) [
  | inl panics ↦ rw (join_loop, panics) (first at addrs n left panicked panics)
  | inr (inl (j, ids, joins)) ↦
      rw (join_loop, joins) (first at addrs n left (returned (ok ids)) (j, joins))
  | inr (inr (j, e, fails)) ↦ failed j e fails
]

join_loop-Ends :
    (left fuel : ℕ) (at : ℕ → Moment) (addrs : List GoString) (b : Backoff) (n : ℕ)
    → 0 < b.retries
    → b.attempts + left ≡ suc b.retries
    → left < fuel
    → Ends at addrs n left (join_loop fuel at addrs b n)
unfolding join_loop
join_loop-Ends left zero at addrs b n pos count lt = absurd (omega (arith, lt))
join_loop-Ends zero (suc fuel) at addrs b n pos count lt =
    attempt-Ends at addrs b n zero fuel (λ j e fails.
      rw (join_loop, fails, wait-over (at n).jitter (at n).fires b pos (omega (arith, count)))
        (first at addrs n zero (returned (err e)) ((j, fails), inl refl)))
join_loop-Ends (suc left) (suc fuel) at addrs b n pos count lt =
    attempt-Ends at addrs b n (suc left) fuel (λ j e fails.
      let waits = wait-goes_on (at n).jitter (at n).fires b (omega (arith, count)) in
      elim (Bool-cases (at n).fires) [
        | inl fires ↦
            let b' = waited (at n).jitter b in
            let (k, retried, le, is) =
              join_loop-Ends left fuel at addrs b' (suc n) pos (omega (arith, count))
                (omega (arith, lt)) in
            let on =
              join_loop-retry fuel at addrs b b' n j e fails (waits ∙ ap (λ f. (f, b')) fires) in
            subst (Ends at addrs n (suc left)) (sym on) (
              suc k,
              ((j, e, fails), fires, retried),
              omega (arith, le),
              shifted at addrs n k left _ is,
            )
        | inr late ↦
            rw (join_loop, fails, waits, late)
              (first at addrs n (suc left) (returned (err e)) ((j, fails), inr late))
      ])

-- Whatever the network, the state, the random draws and the timers are at each attempt:
-- JoinOnStartup ends after at most seven attempts (seven steps of fuel are enough), and it panics
-- only if the last one does. All attempts before failed and were followed by a wait that ended,
-- and its result is that of the last; it returns an error only if that was the seventh attempt,
-- or the context was done before the next.
pub join_on_startup-Ends :
    (at : ℕ → Moment) (addrs : List GoString) (fuel : ℕ)
    → 7 ≤ fuel
    → (k : ℕ) × AllRetried at addrs 0 k
      × (k ≤ 6)
      × IsResult (at k) addrs (k ≡ 6) (join_on_startup fuel at addrs)
unfolding join_on_startup new_backoff
join_on_startup-Ends at addrs fuel le =
    let (k, retried, few, is) =
      join_loop-Ends 6 fuel at addrs (new_backoff 5 second minute) 0 (omega arith) refl
        (omega (arith, le)) in
    (
      k,
      retried,
      few,
      subst (λ i. IsResult (at i) addrs (k ≡ 6) (join_on_startup fuel at addrs)) (omega arith) is,
    )
