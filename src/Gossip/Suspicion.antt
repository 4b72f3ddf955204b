-- ===== src/Gossip/Suspicion.antt =====
-- pkg/gossip/failuredetector.go: when SuspicionLevelAt gives a level.
use pico.Prelude.{
  ℕ, zero, suc, ◌<◌, ◌≡◌, ◌⊎◌, ◌%◌, ◌^◌, refl, sym, str_dec, none, inl, inr, GoString, lookup, some,
  true, arith, Option-cases, lookup-insert, insert,
}
use pico.Prelude.Int64.{is_positive}
use pico.Gossip.Types.{Time}
use pico.Gossip.Detector.{
  ArrivalWindow, Suspicion, FailureDetector, new_arrival_window, add_timestamp, add_interval, wrap,
  replace, new_arrival_intervals, phi, window_at, time_sub, suspicion_level,
}

-- A window with a sample, whose mean is positive.
abbrev pub IsSampled : ArrivalWindow → Type 0
IsSampled w = (0 < w.last_timestamp) × (is_positive w.intervals.mean.total ≡ true)

-- A detector whose windows are sampled, and that can open new ones.
pub record IsReady (d : FailureDetector) : Type 0 where
  pub sampled : (id : GoString) (w : ArrivalWindow) → lookup id d.windows ≡ some w → IsSampled w
  pub bootstrap : is_positive d.bootstrap_interval ≡ true
  pub room : 0 < d.sample_size

-- A window that is opened now: one interval, the bootstrap interval.
abbrev pub IsOpened : FailureDetector → Time → ArrivalWindow → Type 0
IsOpened d now w =
    (w.last_timestamp ≡ now)
    × (w.intervals.mean ≡ record { total = d.bootstrap_interval % 2 ^ 64; count = 1 })

-- The window of a node that the detector has, or one that is opened now if it has none.
abbrev pub IsWindow : FailureDetector → Time → GoString → ArrivalWindow → Type 0
IsWindow d now id w =
    (lookup id d.windows ≡ some w) ⊎ ((lookup id d.windows ≡ none) × IsOpened d now w)

first_sample :
    (b n : ℕ) (now : Time)
    → is_positive b ≡ true
    → 0 < n
    → 0 < now
    → (w : ArrivalWindow) × (add_timestamp (new_arrival_window b n) now ≡ some w)
      × IsSampled w
      × (w.last_timestamp ≡ now)
      × (w.intervals.mean ≡ record { total = b % 2 ^ 64; count = 1 })
unfolding add_timestamp new_arrival_window add_interval wrap replace new_arrival_intervals
first_sample b zero now positive room later = absurd (omega arith)
first_sample b (suc n) now positive room later =
    let first : ArrivalWindow = record {
      last_timestamp = now;
      intervals = replace (new_arrival_intervals (suc n)) 0 b;
      bootstrap_interval = b;
    } in
    (first, ground arith, (later, ground (arith, positive)), refl, ground arith)

phi_sampled :
    (w : ArrivalWindow) (now : Time)
    → IsSampled w
    → phi w now ≡ some (record { delta = time_sub now w.last_timestamp; mean = w.intervals.mean })
unfolding phi
phi_sampled w now h = ground (arith, h)

module _ (d : FailureDetector) (now : Time) (h : IsReady d) (later : 0 < now) where
  IsWindow-found :
      (id : GoString)
      → (w : ArrivalWindow) × (window_at d now (lookup id d.windows) ≡ some w)
        × IsSampled w
        × ((x : ArrivalWindow) → lookup id d.windows ≡ some x → x ≡ w)
        × IsWindow d now id w
  IsWindow-found id = elim (Option-cases (lookup id d.windows)) [
    | inr (w, found) ↦
        (w, rw found refl, h.sampled id w found, (λ x e. ground (arith, found, e)), inl found)
    | inl missing ↦
        let (w, opened, sampled, at, mean) =
          first_sample d.bootstrap_interval d.sample_size now h.bootstrap h.room later in
        (
          w,
          rw missing opened,
          sampled,
          (λ x e. absurd (ground (arith, missing, e))),
          inr (missing, (at, mean)),
        )
  ]

  -- The level is that of the node's window in the detector afterwards; no other window is lost.
  pub suspicion_level-IsReady :
      (id : GoString)
      → (d' : FailureDetector) × (w : ArrivalWindow) × (level : Suspicion) × (suspicion_level d id
            now
          ≡ some (d', level))
        × IsReady d'
        × (lookup id d'.windows ≡ some w)
        × (level ≡ record { delta = time_sub now w.last_timestamp; mean = w.intervals.mean })
        × ((j : GoString) (x : ArrivalWindow)
            → lookup j d.windows ≡ some x
            → lookup j d'.windows ≡ some x)
        × IsWindow d now id w
        × ((j : GoString)
            → (lookup j d'.windows ≡ lookup j d.windows)
              ⊎ ((j ≡ id) × (lookup j d'.windows ≡ some w)))
        × (d'.bootstrap_interval ≡ d.bootstrap_interval)
  unfolding suspicion_level
  suspicion_level-IsReady id =
      let (w, found, sampled, same, window) = IsWindow-found id in
      let level : Suspicion = record {
        delta = time_sub now w.last_timestamp;
        mean = w.intervals.mean;
      } in
      (
        record d { windows = insert id w d.windows },
        w,
        level,
        rw (suspicion_level, found, phi_sampled w now sampled) refl,
        record {
          sampled =
              λ j x e. ground (arith, h.sampled j x, sampled, e, lookup-insert id j w d.windows);
          bootstrap = h.bootstrap;
          room = h.room;
        },
        ground (arith, lookup-insert id id w d.windows),
        refl,
        (λ j x e. ground (arith, e, same x, lookup-insert id j w d.windows)),
        window,
        (λ j. elim (str_dec id j) [
          | yes p ↦ inr (sym p, ground (arith, p, lookup-insert id j w d.windows))
          | no ne ↦ inl (ground (arith, ne, lookup-insert id j w d.windows))
        ]),
        refl,
      )
