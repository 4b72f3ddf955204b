-- ===== src/Gossip/Samples.antt =====
-- pkg/gossip/failuredetector.go: the mean of the ring against the list of all samples.
use pico.Prelude.{
  ℕ, zero, suc, ◌+◌, ◌-◌, ◌%◌, ◌^◌, ◌≤◌, ◌<◌, ◌≡◌, ◌≢◌, ◌∙◌, refl, ap, sym, subst, ℕ_discrete, inl,
  inr, List, [], ◌∷◌, Option, some, true, false, arith, length, get_elem?, Bool-cases, ◌==◌, min,
  All, ◌>>=◌,
}
use pico.Prelude.Arrays.{set, length-set, length-replicate}
use pico.Gossip.Detector.{
  ArrivalIntervals, Mean, wrap, replace, new_arrival_intervals, add_interval,
}
use pico.Gossip.Windows.{total, get_elem?-lt}

-- The samples, of which the newest comes first.
abbrev pub newest : ℕ → List ℕ → List ℕ
newest zero xs = []
newest (suc n) [] = []
newest (suc n) (x ∷ xs) = x ∷ newest n xs

unfoldable pub add_all : ArrivalIntervals → List ℕ → Option ArrivalIntervals
unfolding add_interval
add_all i [] = some i
add_all i (x ∷ xs) = do i' ← add_all i xs; add_interval i' x

total-newest_all : (n : ℕ) (xs : List ℕ) → length xs ≤ n → total (newest n xs) ≡ total xs
unfolding total
total-newest_all zero [] le = refl
total-newest_all zero (x ∷ xs) le = absurd (omega (arith, le))
total-newest_all (suc n) [] le = refl
total-newest_all (suc n) (x ∷ xs) le = ground (arith, total-newest_all n xs (omega (arith, le)))

-- The sample that a full window gives up for a new one.
total-newest-suc :
    (n : ℕ) (xs : List ℕ) (old : ℕ)
    → get_elem? xs n ≡ some old
    → total (newest (suc n) xs) ≡ total (newest n xs) + old
unfolding total
total-newest-suc n [] old at = cc at
total-newest-suc zero (x ∷ xs) old at = ground (arith, at)
total-newest-suc (suc n) (x ∷ xs) old at = omega (arith, total-newest-suc n xs old at)

get_elem?-set_same : (xs : List ℕ) (i v : ℕ) → i < length xs → get_elem? (set xs i v) i ≡ some v
get_elem?-set_same [] i v lt = absurd (omega (arith, lt))
get_elem?-set_same (x ∷ xs) zero v lt = refl
get_elem?-set_same (x ∷ xs) (suc i) v lt = get_elem?-set_same xs i v (omega (arith, lt))

get_elem?-set_apart : (xs : List ℕ) (i j v : ℕ) → i ≢ j → get_elem? (set xs i v) j ≡ get_elem? xs j
get_elem?-set_apart [] i j v ne = refl
get_elem?-set_apart (x ∷ xs) zero zero v ne = absurd (ne refl)
get_elem?-set_apart (x ∷ xs) zero (suc j) v ne = refl
get_elem?-set_apart (x ∷ xs) (suc i) zero v ne = refl
get_elem?-set_apart (x ∷ xs) (suc i) (suc j) v ne =
    get_elem?-set_apart xs i j v (λ p. ne (ap suc p))

-- The ring of `n` places after these samples.
pub record HasSamples (n : ℕ) (xs : List ℕ) (i : ArrivalIntervals) : Type 0 where
  pub places : length i.intervals ≡ n
  pub index_le : i.index ≤ n
  pub part : i.is_full ≡ false → length xs ≡ i.index
  pub full : i.is_full ≡ true → n ≤ length xs
  pub sums : i.sum ≡ total (newest n xs) % 2 ^ 64
  pub recent : (j : ℕ) → j < i.index → get_elem? i.intervals j ≡ get_elem? xs (i.index - 1 - j)
  pub older :
      (j : ℕ)
      → i.is_full ≡ true
      → i.index ≤ j
      → j < n
      → get_elem? i.intervals j ≡ get_elem? xs (n + i.index - 1 - j)

wrap-HasSamples :
    (n : ℕ) (xs : List ℕ) (i : ArrivalIntervals)
    → 0 < n
    → HasSamples n xs i
    → HasSamples n xs (wrap i) × ((wrap i).index < n)
unfolding wrap
wrap-HasSamples n xs i pos h = elim (Bool-cases (i.index == length i.intervals)) [
  | inl end ↦
      let at_end : i.index ≡ n = ground (arith, end, h.places) in
      let old : (j : ℕ) → j < n → get_elem? i.intervals j ≡ get_elem? xs (n + 0 - 1 - j) = λ j lt.
        h.recent j (omega (arith, at_end, lt)) ∙ ap (get_elem? xs) (omega (arith, at_end)) in
      rw end (
        record {
          places = h.places;
          index_le = omega arith;
          part = λ e. cc e;
          full = λ e. elim (Bool-cases i.is_full) [
            | inl f ↦ h.full f
            | inr p ↦ omega (arith, h.part p, at_end)
          ];
          sums = h.sums;
          recent = λ j lt. absurd (omega (arith, lt));
          older = λ j e le lt. old j lt;
        },
        pos,
      )
  | inr inside ↦ rw inside (h, ground (arith, inside, h.index_le, h.places))
]

All-get_elem? :
    (xs : List ℕ) (i old : ℕ) → All (λ y. y < 2 ^ 64) xs → get_elem? xs i ≡ some old → old < 2 ^ 64
All-get_elem? [] i old all at = absurd (ground (arith, at))
All-get_elem? (x ∷ xs) zero old all at = ground (arith, all.0, at)
All-get_elem? (x ∷ xs) (suc i) old all at = All-get_elem? xs i old all.1 at

Mean-eq : {m m' : Mean} → m.total ≡ m'.total → m.count ≡ m'.count → m ≡ m'
Mean-eq p q = λ i. record { total = p i; count = q i }

module _ (m : ℕ) (xs : List ℕ) (i : ArrivalIntervals) (h : HasSamples (suc m) xs i)
    (free : i.index < suc m) (old x : ℕ) (at : get_elem? i.intervals i.index ≡ some old)
    (fits : All (λ y. y < 2 ^ 64) xs) where
  -- In a full ring, the place of the next sample holds the one that is given up.
  given_up : i.is_full ≡ true → get_elem? xs m ≡ some old
  given_up full =
      ap (get_elem? xs) (omega (arith, free)) ∙ sym (h.older i.index full (omega arith) free) ∙ at

  replaced_sum : (replace i old x).sum ≡ total (newest (suc m) (x ∷ xs)) % 2 ^ 64
  unfolding replace total
  replaced_sum = elim (Bool-cases i.is_full) [
    | inl full ↦ rw full (
        omega (
          arith,
          h.sums,
          total-newest-suc m xs old (given_up full),
          All-get_elem? xs m old fits (given_up full),
        ))
    | inr part ↦
        let few : length xs ≤ m = omega (arith, h.part part, free) in
        rw part (
          omega (
            arith,
            h.sums,
            total-newest_all m xs few,
            total-newest_all (suc m) xs (omega (arith, few)),
          ))
  ]

  recent_after :
      (j : ℕ)
      → j < i.index + 1
      → get_elem? (set i.intervals i.index x) j ≡ get_elem? (x ∷ xs) (i.index + 1 - 1 - j)
  recent_after j lt = elim (ℕ_discrete i.index j) [
    | yes p ↦
        let first : 0 ≡ i.index + 1 - 1 - i.index = omega arith in
        subst
          (λ k. get_elem? (set i.intervals i.index x) k ≡ get_elem? (x ∷ xs) (i.index + 1 - 1 - k))
          p
          (get_elem?-set_same i.intervals i.index x (omega (arith, h.places, free))
            ∙ ap (get_elem? (x ∷ xs)) first)
    | no ne ↦
        let before : j < i.index = omega (arith, lt, ne) in
        let next : suc (i.index - 1 - j) ≡ i.index + 1 - 1 - j = omega (arith, before) in
        get_elem?-set_apart i.intervals i.index j x ne
        ∙ h.recent j before
        ∙ ap (get_elem? (x ∷ xs)) next
  ]

  older_after :
      (j : ℕ)
      → i.is_full ≡ true
      → i.index + 1 ≤ j
      → j < suc m
      → get_elem? (set i.intervals i.index x) j ≡ get_elem? (x ∷ xs) (suc m + (i.index + 1) - 1 - j)
  older_after j full le lt =
      let next : suc (suc m + i.index - 1 - j) ≡ suc m + (i.index + 1) - 1 - j =
        omega (arith, le, lt) in
      get_elem?-set_apart i.intervals i.index j x (λ p. omega (arith, p, le))
      ∙ h.older j full (omega (arith, le)) lt
      ∙ ap (get_elem? (x ∷ xs)) next

  replace-HasSamples : HasSamples (suc m) (x ∷ xs) (replace i old x)
  unfolding replace
  replace-HasSamples = record {
    places = length-set i.intervals i.index x ∙ h.places;
    index_le = omega (arith, free);
    part = λ e. omega (arith, h.part e);
    full = λ e. omega (arith, h.full e);
    sums = replaced_sum;
    recent = recent_after;
    older = older_after;
  }

  replaced_mean : (replace i old x).mean ≡ record {
    total = total (newest (suc m) (x ∷ xs)) % 2 ^ 64;
    count = min (suc m) (length (x ∷ xs));
  }
  unfolding replace
  replaced_mean = elim (Bool-cases i.is_full) [
    | inl full ↦
        Mean-eq replaced_sum
          (rw full (length-set i.intervals i.index x ∙ h.places ∙ omega (arith, h.full full)))
    | inr part ↦ Mean-eq replaced_sum (rw part (omega (arith, h.part part, free)))
  ]

add_interval-HasSamples :
    (m : ℕ) (xs : List ℕ) (i : ArrivalIntervals) (x : ℕ)
    → HasSamples (suc m) xs i
    → All (λ y. y < 2 ^ 64) xs
    → (i' : ArrivalIntervals) × (add_interval i x ≡ some i')
      × HasSamples (suc m) (x ∷ xs) i'
      × (i'.mean ≡ record {
        total = total (newest (suc m) (x ∷ xs)) % 2 ^ 64;
        count = min (suc m) (length (x ∷ xs));
      })
unfolding add_interval
add_interval-HasSamples m xs i x h fits =
    let (w, free) = wrap-HasSamples (suc m) xs i (omega arith) h in
    let (old, at) =
      get_elem?-lt (wrap i).intervals (wrap i).index (omega (arith, w.places, free)) in
    (
      replace (wrap i) old x,
      rw at refl,
      replace-HasSamples m xs (wrap i) w free old x at fits,
      replaced_mean m xs (wrap i) w free old x at fits,
    )

total-newest_nil : (n : ℕ) → total (newest n []) ≡ 0
unfolding total
total-newest_nil zero = refl
total-newest_nil (suc n) = refl

new-HasSamples : (m : ℕ) → HasSamples (suc m) [] (new_arrival_intervals (suc m))
unfolding new_arrival_intervals
new-HasSamples m = record {
  places = length-replicate {A = ℕ} (suc m) 0;
  index_le = omega arith;
  part = λ e. refl;
  full = λ e. cc e;
  sums = omega (arith, total-newest_nil (suc m));
  recent = λ j lt. absurd (omega (arith, lt));
  older = λ j e le lt. cc e;
}

add_all-HasSamples :
    (m : ℕ) (xs : List ℕ)
    → All (λ y. y < 2 ^ 64) xs
    → (i : ArrivalIntervals) × (add_all (new_arrival_intervals (suc m)) xs ≡ some i)
      × HasSamples (suc m) xs i
unfolding add_all
add_all-HasSamples m [] fits = (new_arrival_intervals (suc m), refl, new-HasSamples m)
add_all-HasSamples m (x ∷ xs) (fit, fits) =
    let (i, ran, h) = add_all-HasSamples m xs fits in
    let (i', added, h', mean) = add_interval-HasSamples m xs i x h fits in
    (i', rw (add_all, ran) added, h')

-- After any positive number of Adds of 64-bit intervals to a new ring of positive sample size,
-- none of which panics, the mean is the 64-bit sum of the newest intervals, as many as the sample
-- size or all if they are fewer, over their number.
pub add_all-mean :
    (sample_size x : ℕ) (xs : List ℕ)
    → 0 < sample_size
    → All (λ y. y < 2 ^ 64) (x ∷ xs)
    → (i : ArrivalIntervals) × (add_all (new_arrival_intervals sample_size) (x ∷ xs) ≡ some i)
      × (i.mean ≡ record {
        total = total (newest sample_size (x ∷ xs)) % 2 ^ 64;
        count = min sample_size (length (x ∷ xs));
      })
unfolding add_all
add_all-mean zero x xs pos fits = absurd (omega (arith, pos))
add_all-mean (suc m) x xs pos (fit, fits) =
    let (i, ran, h) = add_all-HasSamples m xs fits in
    let (i', added, h', mean) = add_interval-HasSamples m xs i x h fits in
    (i', rw (add_all, ran) added, mean)
