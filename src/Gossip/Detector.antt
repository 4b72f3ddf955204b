-- ===== src/Gossip/Detector.antt =====
-- pkg/gossip/failuredetector.go. An int64 is its 64-bit pattern, a number below 2 ^ 64; a float64 is
-- the exact quotient that it approximates. A panic is `none`.
use pico.Prelude.{
  ℕ, ◌+◌, ◌-◌, ◌*◌, ◌^◌, min, GoString, GoMap, lookup, insert, delete, Bool, true, false, ◌&&◌,
  List, [], Option, some, none, ltb, leb, ◌==◌, if◌then◌else◌, length, get_elem?,
}
use pico.Prelude.Arrays.{set, replicate, ◌>>=◌}
use pico.Prelude.Int64.{add_int64, sub_int64, is_positive}
use pico.Gossip.Types.{Time}

-- `t.Sub(u)`, which stops at the least and the greatest duration.
abbrev pub time_sub : Time → Time → ℕ
time_sub t u = if leb u t then min (t - u) (2 ^ 63 - 1) else 2 ^ 64 - min (u - t) (2 ^ 63)

-- A mean: `total / count`.
pub record Mean : Type 0 where
  pub total : ℕ
  pub count : ℕ

pub record ArrivalIntervals : Type 0 where
  pub intervals : List ℕ
  pub index : ℕ
  pub is_full : Bool
  pub sum : ℕ
  pub mean : Mean

unfoldable pub new_arrival_intervals : ℕ → ArrivalIntervals
new_arrival_intervals sample_size = record {
  intervals = replicate sample_size 0;
  index = 0;
  is_full = false;
  sum = 0;
  mean = record { total = 0; count = 1 };
}

abbrev pub size : ArrivalIntervals → ℕ
size i = if i.is_full then length i.intervals else i.index

-- The wrap at the head of `Add`.
unfoldable pub wrap : ArrivalIntervals → ArrivalIntervals
wrap i = if i.index == length i.intervals then record i { index = 0; is_full = true } else i

-- The rest of `Add`, where `old` is the interval that the index points to.
unfoldable pub replace : ArrivalIntervals → ℕ → ℕ → ArrivalIntervals
replace i old interval =
    let kept = if i.is_full then sub_int64 i.sum old else i.sum in
    let total = add_int64 kept interval in
    let next = record i {
      intervals = set i.intervals i.index interval;
      index = i.index + 1;
      sum = total;
    } in
    record next { mean = record { total = total; count = size next } }

-- `arrivalIntervals.Add`; it panics on an empty buffer.
unfoldable pub add_interval : ArrivalIntervals → ℕ → Option ArrivalIntervals
unfolding wrap replace
add_interval i interval = do
  old ← get_elem? (wrap i).intervals (wrap i).index
  some (replace (wrap i) old interval)

pub record ArrivalWindow : Type 0 where
  pub last_timestamp : Time
  pub intervals : ArrivalIntervals
  pub bootstrap_interval : ℕ

unfoldable pub new_arrival_window : ℕ → ℕ → ArrivalWindow
unfolding new_arrival_intervals
new_arrival_window bootstrap_interval sample_size = record {
  last_timestamp = 0;
  intervals = new_arrival_intervals sample_size;
  bootstrap_interval = bootstrap_interval;
}

-- `arrivalWindow.Add`
unfoldable pub add_timestamp : ArrivalWindow → Time → Option ArrivalWindow
unfolding add_interval
add_timestamp w timestamp = do
  next ←
      add_interval w.intervals (
        if ltb 0 w.last_timestamp
        then time_sub timestamp w.last_timestamp
        else w.bootstrap_interval)
  some (record w { intervals = next; last_timestamp = timestamp })

-- `phi`: the quotient `delta / mean`.
pub record Suspicion : Type 0 where
  pub delta : ℕ
  pub mean : Mean

-- `arrivalWindow.Phi`; it panics before the first sample and at a mean that is not positive.
unfoldable pub phi : ArrivalWindow → Time → Option Suspicion
phi w timestamp =
    if ltb 0 w.last_timestamp && is_positive w.intervals.mean.total
    then some (record { delta = time_sub timestamp w.last_timestamp; mean = w.intervals.mean })
    else none

-- `suspicionLevel > suspicionThreshold`, for a positive mean.
unfoldable pub exceeds : Suspicion → ℕ → Bool
exceeds level threshold =
    is_positive level.delta && ltb (threshold * level.mean.total) (level.delta * level.mean.count)

pub record FailureDetector : Type 0 where
  pub windows : GoMap ArrivalWindow
  pub bootstrap_interval : ℕ
  pub sample_size : ℕ

unfoldable pub new_failure_detector : ℕ → ℕ → FailureDetector
new_failure_detector bootstrap_interval sample_size = record {
  windows = [];
  bootstrap_interval = bootstrap_interval;
  sample_size = sample_size;
}

-- `window, ok := d.windows[nodeID]`, with a new window where there is none.
abbrev pub window_or_new : FailureDetector → Option ArrivalWindow → ArrivalWindow
window_or_new d (some w) = w
window_or_new d none = new_arrival_window d.bootstrap_interval d.sample_size

-- `ReportWithTimestamp`
unfoldable pub report : FailureDetector → GoString → Time → Option FailureDetector
unfolding add_timestamp
report d node_id timestamp = do
  w ← add_timestamp (window_or_new d (lookup node_id d.windows)) timestamp
  some (record d { windows = insert node_id w d.windows })

-- The window that `SuspicionLevelAt` reads: one that starts now if the node was never heard of.
abbrev pub window_at : FailureDetector → Time → Option ArrivalWindow → Option ArrivalWindow
window_at d timestamp (some w) = some w
window_at d timestamp none =
    add_timestamp (new_arrival_window d.bootstrap_interval d.sample_size) timestamp

-- `SuspicionLevelAt`
unfoldable pub suspicion_level :
    FailureDetector → GoString → Time → Option (FailureDetector × Suspicion)
unfolding add_timestamp phi
suspicion_level d node_id timestamp = do
  w ← window_at d timestamp (lookup node_id d.windows)
  level ← phi w timestamp
  some (record d { windows = insert node_id w d.windows }, level)

-- `Remove`
unfoldable pub remove_window : FailureDetector → GoString → FailureDetector
remove_window d node_id = record d { windows = delete node_id d.windows }
