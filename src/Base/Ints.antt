-- ===== src/Base/Ints.antt =====
-- `int` values, and atoi.
pub mod Decimal
pub mod Long
use Prim.Native.Nat.{ℕ, zero, suc, ◌+◌, ◌-◌, ◌*◌, ◌^◌}
use mathlib.Core.Bool.{Bool, true, false, ◌&&◌, ◌||◌}
use mathlib.Core.Option.{Option, none, some}
use mathlib.Core.List.{List, [], ◌∷◌}
use spe.Base.Tests.{ltb, leb, ◌==◌, if◌then◌else◌}

pub data ℤ : Type 0 where
  pos : ℕ → ℤ
  negsuc : ℕ → ℤ

pub neg : ℕ → ℤ
neg zero = pos zero
neg (suc n) = negsuc n

-- i <= 0
unfoldable pub is_not_positive : ℤ → Bool
is_not_positive (pos n) = n == 0
is_not_positive (negsuc n) = true

-- isspace
pub is_space : ℕ → Bool
is_space c = c == 32 || (leb 9 c && leb c 13)

pub is_digit : ℕ → Bool
is_digit c = leb 48 c && leb c 57

-- The digits at the start, after `n`.
unfoldable pub digits : ℕ → List ℕ → ℕ
unfolding is_digit
digits n [] = n
digits n (c ∷ cs) = if is_digit c then digits (10 * n + (c - 48)) cs else n

-- A value that an `int` cannot hold is undefined.
pub in_int : Bool → ℕ → Option ℤ
unfolding neg
in_int false n = if ltb n (2 ^ 31) then some (pos n) else none
in_int true n = if leb n (2 ^ 31) then some (neg n) else none

pub sign_digits : List ℕ → Option ℤ
unfolding in_int digits
sign_digits [] = some (pos 0)
sign_digits (c ∷ cs) =
    if c == 45
    then in_int true (digits 0 cs)
    else if c == 43
    then in_int false (digits 0 cs)
    else in_int false (digits 0 (c ∷ cs))

unfoldable pub atoi : List ℕ → Option ℤ
unfolding is_space sign_digits
atoi [] = some (pos 0)
atoi (c ∷ cs) = if is_space c then atoi cs else sign_digits (c ∷ cs)
