-- ===== src/Tests/Environment.antt =====
-- An allocator and a kernel that behave as documented.
use mathlib.Core.Path.{subst}
use spe.Base.{
  ℕ, zero, suc, ◌-◌, ◌≤◌, ◌≡◌, refl, ap, Option, some, List, [], ◌∷◌, ◌++◌, arith, length, take,
  replicate, length-append, length-take, length-replicate,
}
use spe.Buf.Valid.{IsRealloc, IsTotal}

-- The new part of a block is filled with 7s.
abbrev pub plain_realloc : List ℕ → ℕ → Option (List ℕ)
plain_realloc m n = some (take n m ++ replicate (n - length m) 7)

take-keep : (k n : ℕ) (m ys : List ℕ) → k ≤ length m → k ≤ n → take k (take n m ++ ys) ≡ take k m
take-keep zero n m ys h g = refl
take-keep (suc k) zero m ys h g = absurd (omega arith)
take-keep (suc k) (suc n) [] ys h g = absurd (omega arith)
take-keep (suc k) (suc n) (x ∷ m) ys h g =
    ap (◌∷◌ x) (take-keep k n m ys (omega arith) (omega arith))

abbrev Fits : List ℕ → ℕ → List ℕ → Type 0
Fits m n m' = (length m' ≡ n) × ((k : ℕ) → k ≤ length m → k ≤ n → take k m' ≡ take k m)

pub plain_realloc-IsRealloc : IsRealloc plain_realloc
plain_realloc-IsRealloc m n m' e =
    let filled : List ℕ = take n m ++ replicate (n - length m) 7 in
    let same : filled ≡ m' = cc in
    let size : length filled ≡ n = omega (
      arith,
      length-append (take n m) (replicate (n - length m) 7),
      length-take n m,
      length-replicate {0} {A = ℕ} (n - length m) 7,
    ) in
    subst (Fits m n) same (size, λ k h g. take-keep k n m (replicate (n - length m) 7) h g)

pub plain_realloc-IsTotal : IsTotal plain_realloc
plain_realloc-IsTotal m n h = (take n m ++ replicate (n - length m) 7, refl)
