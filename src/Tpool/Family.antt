-- ===== src/Tpool/Family.antt =====
-- Sums over the threads of a pool, and occurrences in the free list.
use spe.Base.{
  ℕ, zero, suc, ◌+◌, ◌*◌, ◌≤◌, ◌<◌, ◌≡◌, refl, inl, inr, List, [], ◌∷◌, ◌++◌, arith, ◌==◌,
  if◌then◌else◌, Bool-cases,
}
use spe.Tpool.{Thread, update}

pub total : (Thread → ℕ) → ℕ → (ℕ → Thread) → ℕ
total f zero t = 0
total f (suc n) t = total f n t + f (t n)

pub total-beyond :
    (f : Thread → ℕ) (n : ℕ) (t : ℕ → Thread) (i : ℕ) (x : Thread)
    → n ≤ i
    → total f n (update t i x) ≡ total f n t
unfolding total
total-beyond f zero t i x h = refl
total-beyond f (suc n) t i x h = ground (arith, total-beyond f n t i x)

pub total-update :
    (f : Thread → ℕ) (n : ℕ) (t : ℕ → Thread) (i : ℕ) (x : Thread)
    → i < n
    → total f n (update t i x) + f (t i) ≡ total f n t + f x
unfolding total
total-update f zero t i x h = absurd (omega arith)
total-update f (suc n) t i x h = elim (Bool-cases (n == i)) [
  | inl e ↦ let same : n ≡ i = ground arith in ground (arith, total-beyond f n t i x)
  | inr e ↦ ground (arith, total-update f n t i x)
]

pub total-const :
    (f : Thread → ℕ) (n k : ℕ) (t : ℕ → Thread) → ((i : ℕ) → f (t i) ≡ k) → total f n t ≡ n * k
unfolding total
total-const f zero k t h = omega arith
total-const f (suc n) k t h = grind (arith, h n, total-const f n k t h)

-- How often `j` stands in a list.
unfoldable pub occurs : ℕ → List ℕ → ℕ
occurs j [] = 0
occurs j (i ∷ is) = (if j == i then 1 else 0) + occurs j is

pub occurs-append : (j : ℕ) (is js : List ℕ) → occurs j (is ++ js) ≡ occurs j is + occurs j js
unfolding occurs
occurs-append j [] js = omega arith
occurs-append j (i ∷ is) js = omega (arith, occurs-append j is js)

pub occurs_one : (j i : ℕ) → occurs j (i ∷ []) ≡ (if j == i then 1 else 0)
unfolding occurs
occurs_one j i = omega arith

pub occurs-cons :
    (j i : ℕ) (is : List ℕ) → occurs j (i ∷ is) ≡ (if j == i then 1 else 0) + occurs j is
unfolding occurs
occurs-cons j i is = refl
