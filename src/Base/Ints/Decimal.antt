-- ===== src/Base/Ints/Decimal.antt =====
-- Decimal numerals: what sprintf writes, and atoi reads back.
use Prim.Native.Nat.{ℕ, zero, suc, ◌+◌, ◌-◌, ◌*◌, ◌/◌, ◌%◌, ◌^◌, ◌≤◌, ◌<◌}
use mathlib.Core.Path.{◌≡◌, refl, sym, ap, ◌∙◌, subst}
use mathlib.Core.Logic.{inl, inr}
use mathlib.Core.Bool.{true, false}
use mathlib.Core.Option.{some}
use mathlib.Core.List.{List, [], ◌∷◌, ◌++◌}
use native.Mathlib.Omega.{arith}
use spe.Base.Tests.{ltb, ◌==◌, if◌then◌else◌, Bool-cases, ltb→lt, lt→ltb, ltb-false→le}
use spe.Base.Lists.{All, All-append}
use spe.Base.Ints.{ℤ, pos, negsuc, is_space, is_digit, digits, in_int, sign_digits, atoi}

-- On fuel; a number has fewer digits than it is large.
pub numeral : ℕ → ℕ → List ℕ
numeral zero n = []
numeral (suc f) n =
    let front = numeral f (n / 10) in
    if ltb n 10 then (48 + n) ∷ [] else front ++ ((48 + n % 10) ∷ [])

pub decimal : ℕ → List ℕ
unfolding numeral
decimal n = numeral (suc n) n

-- "%ld"
pub decimal_long : ℤ → List ℕ
unfolding decimal
decimal_long (pos n) = decimal n
decimal_long (negsuc n) = 45 ∷ decimal (suc n)

abbrev pub IsDigit : ℕ → Type 0
IsDigit c = is_digit c ≡ true

digit : (n : ℕ) → n < 10 → IsDigit (48 + n)
unfolding is_digit
digit n h = ground arith

numeral-IsDigit : (f n : ℕ) → All IsDigit (numeral f n)
unfolding numeral
numeral-IsDigit zero n = tt
numeral-IsDigit (suc f) n = elim (Bool-cases (ltb n 10)) [
  | inl e ↦ rw e (digit n (ltb→lt _ _ e), tt)
  | inr e ↦ rw e (
      All-append IsDigit (numeral f (n / 10)) ((48 + n % 10) ∷ []) (numeral-IsDigit f (n / 10))
        (digit (n % 10) (omega arith), tt))
]

pub digits-append :
    (k : ℕ) (xs ys : List ℕ) → All IsDigit xs → digits k (xs ++ ys) ≡ digits (digits k xs) ys
unfolding digits
digits-append k [] ys h = refl
digits-append k (x ∷ xs) ys h = rw h.0 (digits-append (10 * k + (x - 48)) xs ys h.1)

digits_one : (k n : ℕ) → n < 10 → digits k ((48 + n) ∷ []) ≡ 10 * k + n
unfolding digits
digits_one k n h = rw (digit n h) (omega arith)

digits-numeral : (f n : ℕ) → n < f → digits 0 (numeral f n) ≡ n
unfolding numeral
digits-numeral zero n h = absurd (omega arith)
digits-numeral (suc f) n h = elim (Bool-cases (ltb n 10)) [
  | inl e ↦ rw e (digits_one 0 n (ltb→lt _ _ e) ∙ omega arith)
  | inr e ↦
      let big : 10 ≤ n = ltb-false→le _ _ e in
      let high = digits-numeral f (n / 10) (omega arith) in
      rw
        (
          e,
          digits-append 0 (numeral f (n / 10)) ((48 + n % 10) ∷ []) (numeral-IsDigit f (n / 10)),
          high,
          digits_one (n / 10) (n % 10) (omega arith),
        )
        (omega arith)
]

-- A number has a first digit.
numeral-front : (f n : ℕ) → (c : ℕ) × (cs : List ℕ) × (numeral (suc f) n ≡ c ∷ cs)
unfolding numeral
numeral-front zero n = elim (Bool-cases (ltb n 10)) [
  | inl e ↦ (48 + n, [], rw e refl)
  | inr e ↦ (48 + n % 10, [], rw e refl)
]
numeral-front (suc f) n = elim (Bool-cases (ltb n 10)) [
  | inl e ↦ (48 + n, [], rw e refl)
  | inr e ↦
      let (c, cs, q) = numeral-front f (n / 10) in
      (c, cs ++ ((48 + n % 10) ∷ []), rw e (ap (λ l. l ++ ((48 + n % 10) ∷ [])) q))
]

pub decimal-IsDigit : (n : ℕ) → All IsDigit (decimal n)
unfolding decimal
decimal-IsDigit n = numeral-IsDigit (suc n) n

pub decimal-front : (n : ℕ) → (c : ℕ) × (cs : List ℕ) × (decimal n ≡ c ∷ cs)
unfolding decimal
decimal-front n = numeral-front n n

pub digit-plain :
    (c : ℕ) → IsDigit c → (is_space c ≡ false) × ((c == 45) ≡ false) × ((c == 43) ≡ false)
unfolding is_digit is_space
digit-plain c h = (ground arith, ground arith, ground arith)

atoi-digits : (c : ℕ) (cs : List ℕ) → IsDigit c → atoi (c ∷ cs) ≡ in_int false (digits 0 (c ∷ cs))
unfolding atoi sign_digits
atoi-digits c cs h = let (a, b, d) = digit-plain c h in rw (a, b, d) refl

pub digit-ne : (c k : ℕ) → IsDigit c → k < 48 → (c == k) ≡ false
unfolding is_digit
digit-ne c k h lt = ground arith

pub digits-decimal : (n : ℕ) → digits 0 (decimal n) ≡ n
unfolding decimal
digits-decimal n = digits-numeral (suc n) n (omega arith)

in_int-small : (n : ℕ) → n < 2 ^ 31 → in_int false n ≡ some (pos n)
unfolding in_int
in_int-small n h = rw (lt→ltb _ _ h) refl

pub atoi-decimal : (n : ℕ) → n < 2 ^ 31 → atoi (decimal n) ≡ some (pos n)
atoi-decimal n h =
    let (c, cs, q) = decimal-front n in
    let all : All IsDigit (c ∷ cs) = subst (All IsDigit) q (decimal-IsDigit n) in
    ap atoi q
    ∙ atoi-digits c cs all.0
    ∙ ap (λ l. in_int false (digits 0 l)) (sym q)
    ∙ ap (in_int false) (digits-decimal n)
    ∙ in_int-small n h
