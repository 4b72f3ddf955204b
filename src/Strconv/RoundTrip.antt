-- ===== src/Strconv/RoundTrip.antt =====
-- Reading back what strconv prints.
use pico.Prelude.{
  ℕ, zero, suc, ◌+◌, ◌/◌, ◌%◌, ◌≤◌, ◌≡◌, ◌≢◌, refl, GoString, some, [], ◌∷◌, arith, dec_lt, false,
  true, ◌<◌, ◌^◌, ◌-◌,
}
use pico.Strconv.{max_u64, digits, format_uint, scan, parse_uint, signed, itoa, atoi}

scan-digits :
    (f n : ℕ) (out : GoString) → n ≤ f → n ≤ max_u64 → scan (digits f n out) 0 ≡ scan out n
unfolding digits scan
scan-digits zero n out h fits = ground arith
scan-digits (suc f) n out h fits = ground (arith, scan-digits f (n / 10) ((b'0' + n % 10) ∷ out))

digits-ne-nil : (f n : ℕ) (out : GoString) → out ≢ [] → digits f n out ≢ []
unfolding digits
digits-ne-nil zero n out h = h
digits-ne-nil (suc f) n out h = ground (arith, digits-ne-nil f (n / 10) ((b'0' + n % 10) ∷ out))

parse-scan : (s : GoString) → s ≢ [] → parse_uint s ≡ scan s 0
unfolding parse_uint
parse-scan [] h = absurd (h refl)
parse-scan (c ∷ s) h = refl

digits_pos-ne-nil : (n : ℕ) → digits (suc n) (suc n) [] ≢ []
unfolding digits
digits_pos-ne-nil n = ground (arith, digits-ne-nil n (suc n / 10) ((b'0' + suc n % 10) ∷ []))

-- Every 64-bit unsigned number is read back from its decimal print.
pub parse_uint-format_uint : (n : ℕ) → n ≤ max_u64 → parse_uint (format_uint n) ≡ some n
unfolding format_uint parse_uint scan
parse_uint-format_uint zero fits = refl
parse_uint-format_uint (suc n) fits = ground (
  arith,
  parse-scan (digits (suc n) (suc n) []) (digits_pos-ne-nil n),
  scan-digits (suc n) (suc n) [],
)

-- A text that ParseUint takes has no sign.
atoi_unsigned : (s : GoString) (n : ℕ) → parse_uint s ≡ some n → atoi s ≡ signed false (some n)
unfolding atoi parse_uint scan
atoi_unsigned [] n h = cc
atoi_unsigned (c ∷ s) n h = ground arith

atoi_minus : (s : GoString) → atoi (b'-' ∷ s) ≡ signed true (parse_uint s)
unfolding atoi
atoi_minus s = refl

-- Every int is read back from its decimal print.
pub atoi-itoa : (x : ℕ) → x < 2 ^ 64 → atoi (itoa x) ≡ some x
unfolding itoa
atoi-itoa x h = elim (dec_lt x (2 ^ 63)) [
  | yes small ↦ ground (arith, parse_uint-format_uint x, atoi_unsigned (format_uint x) x)
  | no p ↦
      ground (arith, atoi_minus (format_uint (2 ^ 64 - x)), parse_uint-format_uint (2 ^ 64 - x))
]
