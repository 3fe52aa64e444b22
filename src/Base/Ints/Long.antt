-- ===== src/Base/Ints/Long.antt =====
-- strtol in base 10: a value that a `long` cannot hold becomes the nearest that it can.
use Prim.Native.Nat.{ℕ, ◌-◌, ◌^◌, ◌<◌}
use mathlib.Core.Path.{◌≡◌, refl, sym, ap, ◌∙◌, subst}
use mathlib.Core.Bool.{Bool, true, false}
use mathlib.Core.List.{List, [], ◌∷◌, ◌++◌}
use spe.Base.Tests.{ltb, leb, ◌==◌, if◌then◌else◌, lt→ltb}
use spe.Base.Lists.{All}
use spe.Base.Ints.{ℤ, pos, neg, is_space, is_digit, digits}
use spe.Base.Ints.Decimal.{
  IsDigit, decimal, decimal-IsDigit, decimal-front, digits-append, digits-decimal, digit-plain,
}

in_long : Bool → ℕ → ℤ
in_long false n = if ltb n (2 ^ 63) then pos n else pos (2 ^ 63 - 1)
in_long true n = if leb n (2 ^ 63) then neg n else neg (2 ^ 63)

long_digits : List ℕ → ℤ
unfolding in_long
long_digits [] = pos 0
long_digits (c ∷ cs) =
    if c == 45
    then in_long true (digits 0 cs)
    else if c == 43
    then in_long false (digits 0 cs)
    else in_long false (digits 0 (c ∷ cs))

unfoldable pub strtol : List ℕ → ℤ
unfolding long_digits
strtol [] = pos 0
strtol (c ∷ cs) = if is_space c then strtol cs else long_digits (c ∷ cs)

digits_line : (n : ℕ) → digits n (10 ∷ []) ≡ n
unfolding digits is_digit
digits_line n = refl

in_long-small : (n : ℕ) → n < 2 ^ 63 → in_long false n ≡ pos n
unfolding in_long
in_long-small n h = rw (lt→ltb _ _ h) refl

strtol-digits :
    (c : ℕ) (cs : List ℕ) → IsDigit c → strtol (c ∷ cs) ≡ in_long false (digits 0 (c ∷ cs))
unfolding strtol long_digits
strtol-digits c cs h = let (a, b, d) = digit-plain c h in rw (a, b, d) refl

-- A numeral and a line end.
pub strtol-decimal : (n : ℕ) → n < 2 ^ 63 → strtol (decimal n ++ (10 ∷ [])) ≡ pos n
strtol-decimal n h =
    let (c, cs, q) = decimal-front n in
    let all : All IsDigit (c ∷ cs) = subst (All IsDigit) q (decimal-IsDigit n) in
    ap (λ l. strtol (l ++ (10 ∷ []))) q
    ∙ strtol-digits c (cs ++ (10 ∷ [])) all.0
    ∙ ap (λ l. in_long false (digits 0 (l ++ (10 ∷ [])))) (sym q)
    ∙ ap (in_long false) (
        digits-append 0 (decimal n) (10 ∷ []) (decimal-IsDigit n)
        ∙ ap (λ k. digits k (10 ∷ [])) (digits-decimal n)
        ∙ digits_line n)
    ∙ in_long-small n h
