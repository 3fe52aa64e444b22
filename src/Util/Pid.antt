-- ===== src/Util/Pid.antt =====
-- spe_util.c: the pid that is saved is the pid that is read.
use spe.Base.{ℕ, ◌<◌, ◌^◌, ◌≡◌, refl, ap, ◌∙◌, true, Option, some, List, [], ◌∷◌, ◌++◌, All}
use mathlib.Core.Path.{subst}
use spe.Base.Ints.{pos}
use spe.Base.Ints.Decimal.{decimal, IsDigit, decimal-IsDigit, decimal-front, digit-plain}
use spe.Base.Ints.Long.{strtol-decimal}
use spe.Util.{save_pid, get_pid, remove_pid, has_number}

number-digits : (c : ℕ) (cs : List ℕ) → IsDigit c → has_number (c ∷ cs) ≡ true
unfolding has_number
number-digits c cs h = let (a, b, d) = digit-plain c h in rw (a, b, d) h

number-decimal : (p : ℕ) (rest : List ℕ) → has_number (decimal p ++ rest) ≡ true
number-decimal p rest =
    let (c, cs, q) = decimal-front p in
    let all : All IsDigit (c ∷ cs) = subst (All IsDigit) q (decimal-IsDigit p) in
    ap (λ l. has_number (l ++ rest)) q ∙ number-digits c (cs ++ rest) all.0

-- For a pid that a `long` holds, whatever the file was: after `spe_save_pid` could write the file, `spe_get_pid` gives the pid; after `spe_remove_pid`, 0.
pub get-save :
    (p : ℕ) (file : Option (List ℕ))
    → p < 2 ^ 63
    → (get_pid (save_pid true true p file).1 ≡ some (pos p))
      × (get_pid (remove_pid true (save_pid true true p file).1).1 ≡ some (pos 0))
unfolding get_pid save_pid remove_pid
get-save p file h = (rw (number-decimal p (10 ∷ []), strtol-decimal p h) refl, refl)
