-- ===== src/Base/Memory.antt =====
-- A block of memory as the list of its bytes: reads and writes of several bytes, with the bounds
-- checked. `none` is an access outside the block, which C leaves undefined.
use Prim.Native.Nat.{ℕ, zero, suc, ◌+◌, ◌≤◌, ◌<◌}
use mathlib.Core.Path.{◌≡◌, refl, ap}
use mathlib.Core.List.{List, [], ◌∷◌, ◌++◌}
use mathlib.Core.Option.{Option, none, some}
use native.Mathlib.Omega.{arith}
use spe.Base.Tests.{leb, if◌then◌else◌, le→leb}
use spe.Base.Lists.{length, take, drop, get_elem?}

-- The block with the bytes from `i` on overwritten.
abbrev pub put {ℓ} : {A : Type ℓ} → List A → ℕ → List A → List A
put [] i xs = []
put (m ∷ ms) zero [] = m ∷ ms
put (m ∷ ms) zero (x ∷ xs) = x ∷ put ms zero xs
put (m ∷ ms) (suc i) xs = m ∷ put ms i xs

module _ {ℓ} {A : Type ℓ} where
  pub length-put : (m : List A) (i : ℕ) (xs : List A) → length (put m i xs) ≡ length m
  length-put [] i xs = refl
  length-put (m ∷ ms) zero [] = refl
  length-put (m ∷ ms) zero (x ∷ xs) = ap suc (length-put ms zero xs)
  length-put (m ∷ ms) (suc i) xs = ap suc (length-put ms i xs)

  -- A prefix that ends with the bytes written.
  pub take-put :
      (n k : ℕ) (m xs : List A)
      → k ≡ n + length xs
      → k ≤ length m
      → take k (put m n xs) ≡ take n m ++ xs
  take-put zero zero m [] e h = refl
  take-put zero zero m (x ∷ xs) e h = absurd (omega arith)
  take-put zero (suc k) m [] e h = absurd (omega arith)
  take-put zero (suc k) [] (x ∷ xs) e h = absurd (omega arith)
  take-put zero (suc k) (m ∷ ms) (x ∷ xs) e h =
      ap (◌∷◌ x) (take-put zero k ms xs (omega arith) (omega arith))
  take-put (suc n) zero m xs e h = absurd (omega arith)
  take-put (suc n) (suc k) [] xs e h = absurd (omega arith)
  take-put (suc n) (suc k) (m ∷ ms) xs e h =
      ap (◌∷◌ m) (take-put n k ms xs (omega arith) (omega arith))

  -- A write leaves what stands before it.
  pub take-put_before : (n i : ℕ) (m xs : List A) → n ≤ i → take n (put m i xs) ≡ take n m
  take-put_before zero i m xs h = refl
  take-put_before (suc n) zero m xs h = absurd (omega arith)
  take-put_before (suc n) (suc i) [] xs h = refl
  take-put_before (suc n) (suc i) (m ∷ ms) xs h =
      ap (◌∷◌ m) (take-put_before n i ms xs (omega arith))

  pub drop-put : (o n i : ℕ) (m xs : List A) → i ≡ o + n → drop o (put m i xs) ≡ put (drop o m) n xs
  drop-put zero n i m xs e = ap (λ j. put m j xs) (omega arith)
  drop-put (suc o) n zero m xs e = absurd (omega arith)
  drop-put (suc o) zero (suc i) [] xs e = refl
  drop-put (suc o) (suc n) (suc i) [] xs e = refl
  drop-put (suc o) n (suc i) (m ∷ ms) xs e = drop-put o n i ms xs (omega arith)

  pub get_elem?-put_one :
      (m : List A) (i : ℕ) (x : A) → i < length m → get_elem? (put m i (x ∷ [])) i ≡ some x
  get_elem?-put_one [] i x h = absurd (omega arith)
  get_elem?-put_one (m ∷ ms) zero x h = refl
  get_elem?-put_one (m ∷ ms) (suc i) x h = get_elem?-put_one ms i x (omega arith)

-- memcpy out of the block, `n` bytes from `i` on.
unfoldable pub read_at {ℓ} : {A : Type ℓ} → List A → ℕ → ℕ → Option (List A)
read_at m i n = if leb (i + n) (length m) then some (take n (drop i m)) else none

-- memcpy into the block.
unfoldable pub write_at {ℓ} : {A : Type ℓ} → List A → ℕ → List A → Option (List A)
write_at m i xs = if leb (i + length xs) (length m) then some (put m i xs) else none

module _ {ℓ} {A : Type ℓ} where
  pub read_at_in :
      (m : List A) (i n : ℕ) → i + n ≤ length m → read_at m i n ≡ some (take n (drop i m))
  unfolding read_at
  read_at_in m i n h = rw (le→leb _ _ h)

  pub write_at_in :
      (m : List A) (i : ℕ) (xs : List A)
      → i + length xs ≤ length m
      → write_at m i xs ≡ some (put m i xs)
  unfolding write_at
  write_at_in m i xs h = rw (le→leb _ _ h)

  -- A write past the end of the block is a fault.
  pub write_at_out :
      (m : List A) (i : ℕ) (xs : List A) → length m < i + length xs → write_at m i xs ≡ none
  unfolding write_at
  write_at_out m i xs h = ground arith
