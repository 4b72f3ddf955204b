-- ===== src/Strconv.antt =====
-- The decimal conversions of Go's strconv that gossip keys and values go through: FormatUint and
-- ParseUint in base 10 with 64 bits, Itoa and Atoi. A parse error is `none`.
pub mod RoundTrip
use pico.Prelude.{
  ℕ, zero, suc, ◌+◌, ◌-◌, ◌*◌, ◌/◌, ◌%◌, ◌^◌, GoString, Option, some, none, [], ◌∷◌, leb, ltb, ◌==◌,
  ◌&&◌, Bool, true, false, if◌then◌else◌,
}

abbrev pub max_u64 : ℕ
max_u64 = 2 ^ 64 - 1

-- The digits of `n` in front of `out`; the fuel bounds the rounds of the loop.
digits : ℕ → ℕ → GoString → GoString
digits zero n out = out
digits (suc f) n out =
    let rest = digits f (n / 10) ((b'0' + n % 10) ∷ out) in if n == 0 then out else rest

unfoldable pub format_uint : ℕ → GoString
unfolding digits
format_uint n = if n == 0 then b'0' ∷ [] else digits n n []

-- The loop of ParseUint, with `n` read so far.
scan : GoString → ℕ → Option ℕ
scan [] n = some n
scan (c ∷ s) n =
    let rest = scan s (n * 10 + (c - b'0')) in
    if leb b'0' c && leb c b'9' && leb (n * 10 + (c - b'0')) max_u64 then rest else none

unfoldable pub parse_uint : GoString → Option ℕ
unfolding scan
parse_uint [] = none
parse_uint (c ∷ s) = scan (c ∷ s) 0

-- `Itoa`, for an int given by its pattern.
unfoldable pub itoa : ℕ → GoString
unfolding format_uint
itoa x = if ltb x (2 ^ 63) then format_uint x else b'-' ∷ format_uint (2 ^ 64 - x)

-- A magnitude with its sign, if it is in range.
abbrev pub signed : Bool → Option ℕ → Option ℕ
signed negative none = none
signed true (some n) = if leb n (2 ^ 63) then some ((2 ^ 64 - n) % 2 ^ 64) else none
signed false (some n) = if ltb n (2 ^ 63) then some n else none

-- `Atoi`
unfoldable pub atoi : GoString → Option ℕ
unfolding parse_uint
atoi [] = none
atoi (c ∷ s) =
    if c == b'-'
    then signed true (parse_uint s)
    else if c == b'+'
    then signed false (parse_uint s)
    else signed false (parse_uint (c ∷ s))
