-- ===== src/Common/Text.antt =====
-- Python texts as native strings, by code points: `len(s)` is the library's `count`.
use Prim.Native.Nat.{ℕ, zero, suc, ◌≤◌}
use Prim.Native.String.{String, [], ◌∷◌, count}
use mathlib.Core.Bool.{Bool, false, ◌||◌}
use mathlib.Core.Path.{◌≡◌, refl, ap}
use mathlib.Core.List.{List, [], ◌∷◌}
use Prim.Native.Char.{Char, code}
use aegis_nexus.Common.Tests.{if◌then◌else◌, nat_beq}
use native.Mathlib.Omega.{arith}
use text.Mathlib.Text.{starts_with}
use text.Mathlib.TextLemmas.{length-nil, length-cons}

-- `s[:n]`
unfoldable pub slice : ℕ → String → String
slice zero s = ""
slice (suc n) [] = ""
slice (suc n) (c ∷ s) = c ∷ slice n s

-- `needle in s`
unfoldable pub contains : String → String → Bool
contains needle [] = starts_with "" needle
contains needle (c ∷ s) = starts_with (c ∷ s) needle || contains needle s

-- Whether the code of some code point passes a test.
unfoldable pub any_char : (ℕ → Bool) → String → Bool
any_char p [] = false
any_char p (c ∷ s) = p (code c) || any_char p s

abbrev to_first : Char → List String → List String
to_first c [] = (c ∷ "") ∷ []
to_first c (w ∷ ws) = (c ∷ w) ∷ ws

-- `s.split(c)` for the code point `c`.
unfoldable pub split : ℕ → String → List String
split separator [] = "" ∷ []
split separator (c ∷ s) =
    let rest = split separator s in
    if nat_beq (code c) separator then "" ∷ rest else to_first c rest

pub count-slice : (n : ℕ) (s : String) → count (slice n s) ≤ n
unfolding slice
count-slice zero s = omega (arith, length-nil)
count-slice (suc n) [] = omega (arith, length-nil)
count-slice (suc n) (c ∷ s) = omega (arith, length-cons c (slice n s), count-slice n s)

pub slice_all : (n : ℕ) (s : String) → count s ≤ n → slice n s ≡ s
unfolding slice
slice_all zero [] h = refl
slice_all zero (c ∷ s) h = absurd (omega (arith, length-cons c s))
slice_all (suc n) [] h = refl
slice_all (suc n) (c ∷ s) h = ap (λ t. c ∷ t) (slice_all n s (omega (arith, length-cons c s)))

-- The codes of the code points.
abbrev pub codes : String → List ℕ
codes [] = []
codes (c ∷ s) = code c ∷ codes s
