-- ===== src/Gossip/Windows.antt =====
-- pkg/gossip/failuredetector.go: the ring of intervals and its mean.
use pico.Prelude.{
  ℕ, zero, suc, ◌+◌, ◌%◌, ◌^◌, ◌≤◌, ◌<◌, ◌≡◌, ◌⊎◌, ◌∙◌, refl, ap, inl, inr, List, [], ◌∷◌, some,
  false, arith, length, get_elem?, Bool-cases, ◌==◌,
}
use pico.Prelude.Arrays.{set, length-set, replicate, length-replicate}
use pico.Gossip.Detector.{
  ArrivalIntervals, size, wrap, replace, new_arrival_intervals, add_interval,
}

unfoldable pub total : List ℕ → ℕ
total [] = 0
total (x ∷ xs) = x + total xs

total-set :
    (xs : List ℕ) (i old v : ℕ)
    → get_elem? xs i ≡ some old
    → total (set xs i v) + old ≡ total xs + v
unfolding total
total-set [] i old v h = cc
total-set (x ∷ xs) zero old v h = ground arith
total-set (x ∷ xs) (suc i) old v h = omega (arith, total-set xs i old v h)

get_elem?-set_other : (xs : List ℕ) (i j v : ℕ) → i < j → get_elem? (set xs i v) j ≡ get_elem? xs j
get_elem?-set_other [] i j v h = refl
get_elem?-set_other (x ∷ xs) zero zero v h = absurd (omega arith)
get_elem?-set_other (x ∷ xs) zero (suc j) v h = refl
get_elem?-set_other (x ∷ xs) (suc i) zero v h = absurd (omega arith)
get_elem?-set_other (x ∷ xs) (suc i) (suc j) v h = get_elem?-set_other xs i j v (omega arith)

get_elem?-set :
    (xs : List ℕ) (i j v y : ℕ)
    → get_elem? (set xs i v) j ≡ some y
    → (y ≡ v) ⊎ (get_elem? xs j ≡ some y)
get_elem?-set [] i j v y h = inr h
get_elem?-set (x ∷ xs) zero zero v y h = inl (ground arith)
get_elem?-set (x ∷ xs) zero (suc j) v y h = inr h
get_elem?-set (x ∷ xs) (suc i) zero v y h = inr h
get_elem?-set (x ∷ xs) (suc i) (suc j) v y h = get_elem?-set xs i j v y h

pub get_elem?-lt : (xs : List ℕ) (i : ℕ) → i < length xs → (x : ℕ) × (get_elem? xs i ≡ some x)
get_elem?-lt [] i h = absurd (omega arith)
get_elem?-lt (x ∷ xs) zero h = (x, refl)
get_elem?-lt (x ∷ xs) (suc i) h = get_elem?-lt xs i (omega arith)

-- The ring holds 64-bit numbers, its unused part zeros, and its sum is that of all of it.
pub record IsRing (i : ArrivalIntervals) : Type 0 where
  pub some_room : 0 < length i.intervals
  pub index_le : i.index ≤ length i.intervals
  pub sums : i.sum ≡ total i.intervals % 2 ^ 64
  pub int64 : (j x : ℕ) → get_elem? i.intervals j ≡ some x → x < 2 ^ 64
  pub unused :
      (j x : ℕ) → i.is_full ≡ false → i.index ≤ j → get_elem? i.intervals j ≡ some x → x ≡ 0

pub wrap-IsRing :
    (i : ArrivalIntervals) → IsRing i → IsRing (wrap i) × (wrap i).index < length (wrap i).intervals
unfolding wrap
wrap-IsRing i h = elim (Bool-cases (i.index == length i.intervals)) [
  | inl end ↦ rw end (
    record {
      some_room = h.some_room;
      index_le = omega arith;
      sums = h.sums;
      int64 = h.int64;
      unused = λ j x part le e. cc;
    },
    h.some_room,
  )
  | inr inside ↦ rw inside (h, ground (arith, inside, h.index_le))
]

module _ (i : ArrivalIntervals) (h : IsRing i) (free : i.index < length i.intervals) (old x : ℕ)
    (at : get_elem? i.intervals i.index ≡ some old) (fits : x < 2 ^ 64) where
  replaced_sum : (replace i old x).sum ≡ total (replace i old x).intervals % 2 ^ 64
  unfolding replace
  replaced_sum = elim (Bool-cases i.is_full) [
    | inl full ↦
        rw full
          (omega (arith, h.sums, total-set i.intervals i.index old x at, h.int64 i.index old at))
    | inr part ↦ rw part (
        omega (
          arith,
          h.sums,
          total-set i.intervals i.index old x at,
          h.unused i.index old part (omega arith) at,
        ))
  ]

  replace-IsRing : IsRing (replace i old x)
  unfolding replace
  replace-IsRing = record {
    some_room = rw (length-set i.intervals i.index x) h.some_room;
    index_le = rw (length-set i.intervals i.index x) (omega arith);
    sums = replaced_sum;
    int64 = λ j y e. ground (arith, get_elem?-set i.intervals i.index j x y e, h.int64 j y, fits);
    unused = λ j y part le e.
        h.unused j y part (omega (arith, le))
          (cc (e, get_elem?-set_other i.intervals i.index j x (omega (arith, le))));
  }

  replaced_mean : (replace i old x).mean ≡ record {
    total = total (replace i old x).intervals % 2 ^ 64;
    count = size (replace i old x);
  }
  unfolding replace
  replaced_mean = ap (λ t. record { total = t; count = size (replace i old x) }) replaced_sum

  replaced_size :
      (length (replace i old x).intervals ≡ length i.intervals)
      × (0 < size (replace i old x))
      × (size (replace i old x) ≤ length (replace i old x).intervals)
  unfolding replace
  replaced_size =
      let same = length-set i.intervals i.index x in
      elim (Bool-cases i.is_full) [
        | inl full ↦ (same, ground (arith, same, full, free), ground (arith, same, full, free))
        | inr part ↦ (same, ground (arith, same, part, free), ground (arith, same, part, free))
      ]

total-replicate : (n : ℕ) → total (replicate n 0) ≡ 0
unfolding total
total-replicate zero = refl
total-replicate (suc n) = omega (arith, total-replicate n)

get_elem?-replicate : (n j x : ℕ) → get_elem? (replicate n 0) j ≡ some x → x ≡ 0
get_elem?-replicate zero j x h = cc
get_elem?-replicate (suc n) zero x h = ground arith
get_elem?-replicate (suc n) (suc j) x h = get_elem?-replicate n j x h

length-wrap : (i : ArrivalIntervals) → length (wrap i).intervals ≡ length i.intervals
unfolding wrap
length-wrap i = ground arith

-- A new ring.
pub new_arrival_intervals-IsRing :
    (sample_size : ℕ) → 0 < sample_size → IsRing (new_arrival_intervals sample_size)
unfolding new_arrival_intervals
new_arrival_intervals-IsRing n h = record {
  some_room = omega (arith, h, length-replicate {A = ℕ} n 0);
  index_le = omega arith;
  sums = omega (arith, total-replicate n);
  int64 = λ j x e. omega (arith, get_elem?-replicate n j x e);
  unused = λ j x part le e. get_elem?-replicate n j x e;
}

-- If a ring that is not empty holds 64-bit numbers, zeros where it is unused, and their sum, Add
-- of a 64-bit interval does not panic and leaves such a ring of the same size. The mean is that
-- sum over the number of the intervals in use, which is positive.
pub add_interval-IsRing :
    (i : ArrivalIntervals) (x : ℕ)
    → IsRing i
    → x < 2 ^ 64
    → (i' : ArrivalIntervals) × (add_interval i x ≡ some i')
      × IsRing i'
      × (length i'.intervals ≡ length i.intervals)
      × (i'.mean ≡ record { total = total i'.intervals % 2 ^ 64; count = size i' })
      × (0 < size i')
      × (size i' ≤ length i'.intervals)
unfolding add_interval
add_interval-IsRing i x h fits =
    let (w, free) = wrap-IsRing i h in
    let (old, at) = get_elem?-lt (wrap i).intervals (wrap i).index free in
    let sizes = replaced_size (wrap i) w free old x at fits in
    (
      replace (wrap i) old x,
      rw at refl,
      replace-IsRing (wrap i) w free old x at fits,
      sizes.0 ∙ length-wrap i,
      replaced_mean (wrap i) w free old x at fits,
      sizes.1,
      sizes.2,
    )
