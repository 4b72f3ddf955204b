-- ===== src/Prelude/Strings.antt =====
-- Go strings as byte sequences, with the literals of the source written as texts.
use Prim.Native.Char.{code}
use Prim.Native.Nat.{ℕ}
use Prim.Native.String.{String}
use mathlib.Core.Path.{◌≡◌, refl, ap₂}
use mathlib.Core.List.{List, [], ◌∷◌, ◌++◌}
use mathlib.Core.Option.{Option, none, some}
use native.Mathlib.Decide.{ℕ_discrete}
use native.Mathlib.Omega.{arith}

abbrev pub GoString : Type 0
GoString = List ℕ

-- The bytes of an ASCII literal.
abbrev pub codes : String → GoString
codes String.[] = []
codes (String.◌∷◌ c s) = code c ∷ codes s

-- `a == b` on strings.
unfoldable pub str_dec : (a b : GoString) → Dec (a ≡ b)
unfolding ℕ_discrete
str_dec [] [] = yes refl
str_dec [] (y ∷ b) = no λ e. cc
str_dec (x ∷ a) [] = no λ e. cc
str_dec (x ∷ a) (y ∷ b) =
    let rest = str_dec a b in
    elim (ℕ_discrete x y) [
      | yes p ↦ elim rest [
        | yes q ↦ yes (ap₂ (λ (h : ℕ) (t : GoString). h ∷ t) p q)
        | no q ↦ no λ e. q (cc)
      ]
      | no p ↦ no λ e. p (cc)
    ]

-- `strings.CutPrefix`: what follows the prefix, or `none`, where `strings.HasPrefix` is false.
unfoldable pub cut_prefix : GoString → GoString → Option GoString
cut_prefix s [] = some s
cut_prefix [] (p ∷ ps) = none
cut_prefix (c ∷ s) (p ∷ ps) =
    let rest = cut_prefix s ps in elim (ℕ_discrete c p) [ yes e ↦ rest | no e ↦ none ]

pub cut_prefix-append : (p s : GoString) → cut_prefix (p ++ s) p ≡ some s
unfolding cut_prefix
cut_prefix-append [] [] = refl
cut_prefix-append [] (c ∷ s) = refl
cut_prefix-append (c ∷ p) s = ground (arith, cut_prefix-append p s)
