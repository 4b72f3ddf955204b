-- ===== src/Backoff.antt =====
-- pkg/backoff/backoff.go: the waits between the retries of a client.
use pico.Prelude.{
  ℕ, zero, suc, ◌+◌, ◌*◌, ◌%◌, Bool, true, false, ◌&&◌, ◌==◌, not, ltb, if◌then◌else◌, ite,
}
pub mod Startup

-- A duration, by the bits of its int64.
abbrev pub Duration : Type 0
Duration = ℕ

abbrev pub word_size : ℕ
word_size = 18446744073709551616

pub record Backoff : Type 0 where
  pub retries : ℕ
  pub min_backoff : Duration
  pub max_backoff : Duration
  pub attempts : ℕ
  pub last_backoff : Duration

-- `New`
unfoldable pub new_backoff : ℕ → Duration → Duration → Backoff
new_backoff retries min_backoff max_backoff = record {
  retries = retries;
  min_backoff = min_backoff;
  max_backoff = max_backoff;
  attempts = 0;
  last_backoff = 0;
}

-- `nextWait`, by the multiplication with the random draw.
unfoldable pub next_wait : (Duration → Duration) → Backoff → Duration
next_wait jitter b =
    jitter (if b.last_backoff == 0 then b.min_backoff else (b.last_backoff * 2) % word_size)

-- `Wait`, by whether the timer fires before the context is done.
unfoldable pub wait : (Duration → Duration) → Bool → Backoff → Bool × Backoff
unfolding next_wait
wait jitter fires b =
    if not (b.retries == 0) && ltb b.retries b.attempts
    then (false, b)
    else (fires, record b { attempts = suc b.attempts; last_backoff = next_wait jitter b })
