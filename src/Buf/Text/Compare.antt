-- ===== src/Buf/Text/Compare.antt =====
-- spe_buf.c, `spe_buf_cmp` as an order on contents.
use Prim.Native.Nat.{Ordering, compare}
use spe.Base.{
  ℕ, zero, suc, ◌+◌, ◌≤◌, ◌<◌, ◌≡◌, refl, ap, ◌∙◌, ◌⊎◌, some, List, [], ◌∷◌, arith, length, take,
  drop, ltb, if◌then◌else◌, read_at_in, take-take,
}
use spe.Base.Text.{memcmp}
use spe.Buf.{Buf, bytes}
use spe.Buf.Valid.{IsValid}
use spe.Buf.Move.{content_in, length-bytes}
use spe.Buf.Text.{cmp, cmp_lengths}

-- The order of the dictionary, on bytes.
pub lex : List ℕ → List ℕ → Ordering
lex [] [] = Ordering.eq
lex [] (y ∷ ys) = Ordering.lt
lex (x ∷ xs) [] = Ordering.gt
lex (x ∷ xs) (y ∷ ys) = elim (compare x y) [
  | Ordering.lt ↦ Ordering.lt
  | Ordering.gt ↦ Ordering.gt
  | _ ↦ lex xs ys
]

cmp_lengths-suc : (o : Ordering) (n m : ℕ) → cmp_lengths o (suc n) (suc m) ≡ cmp_lengths o n m
unfolding cmp_lengths
cmp_lengths-suc Ordering.lt n m = refl
cmp_lengths-suc Ordering.eq n m = ground arith
cmp_lengths-suc Ordering.gt n m = refl

-- The common length decides: `spe_buf_cmp` compares that many bytes, then the lengths.
memcmp-lex :
    (k : ℕ) (xs ys : List ℕ)
    → k ≤ length xs
    → k ≤ length ys
    → (k ≡ length xs) ⊎ (k ≡ length ys)
    → cmp_lengths (memcmp (take k xs) (take k ys)) (length xs) (length ys) ≡ lex xs ys
unfolding memcmp cmp_lengths lex
memcmp-lex zero [] [] hx hy e = ground arith
memcmp-lex zero [] (y ∷ ys) hx hy e = ground arith
memcmp-lex zero (x ∷ xs) [] hx hy e = ground arith
memcmp-lex zero (x ∷ xs) (y ∷ ys) hx hy e = absurd (omega arith)
memcmp-lex (suc k) [] ys hx hy e = absurd (omega arith)
memcmp-lex (suc k) (x ∷ xs) [] hx hy e = absurd (omega arith)
memcmp-lex (suc k) (x ∷ xs) (y ∷ ys) hx hy e =
    cmp_lengths-suc (memcmp (x ∷ take k xs) (y ∷ take k ys)) (length xs) (length ys)
    ∙ ground (arith, memcmp-lex k xs ys (omega arith) (omega arith) (omega arith))

memcmp-lex_at :
    (k n m : ℕ) (xs ys : List ℕ)
    → length xs ≡ n
    → length ys ≡ m
    → (k ≤ n) × (k ≤ m) × ((k ≡ n) ⊎ (k ≡ m))
    → cmp_lengths (memcmp (take k xs) (take k ys)) n m ≡ lex xs ys
memcmp-lex_at k n m xs ys p q h =
    rw (← p, ← q) (memcmp-lex k xs ys (omega arith) (omega arith) (omega arith))

-- On two valid buffers with blocks, `spe_buf_cmp` reads inside both blocks, and orders the contents as a dictionary does.
pub cmp-lex :
    (b1 b2 : Buf)
    → IsValid b1
    → IsValid b2
    → 0 < b1.size
    → 0 < b2.size
    → cmp b1 b2 ≡ some (lex (bytes b1) (bytes b2))
unfolding cmp
cmp-lex b1 b2 v w h k =
    let in1 : b1.off + b1.len < b1.size = content_in v h in
    let in2 : b2.off + b2.len < b2.size = content_in w k in
    let len1 = length-bytes b1 (omega (arith, v.block)) in
    let len2 = length-bytes b2 (omega (arith, w.block)) in
    let n : ℕ = if ltb b2.len b1.len then b2.len else b1.len in
    let bound : (n ≤ b1.len) × (n ≤ b2.len) × ((n ≡ b1.len) ⊎ (n ≡ b2.len)) = ground arith in
    let first = take-take n b1.len (drop b1.off b1.mem) bound.0 in
    let second = take-take n b2.len (drop b2.off b2.mem) bound.1 in
    rw
      (
        read_at_in b1.mem b1.off n (omega (arith, v.block)),
        read_at_in b2.mem b2.off n (omega (arith, w.block)),
        ← first,
        ← second,
      )
      (ap some (memcmp-lex_at n b1.len b2.len (bytes b1) (bytes b2) len1 len2 bound))

-- The order is antisymmetric: comparing the other way round turns the sign.
pub flip : Ordering → Ordering
flip Ordering.lt = Ordering.gt
flip Ordering.eq = Ordering.eq
flip Ordering.gt = Ordering.lt

pub lex-flip : (xs ys : List ℕ) → lex ys xs ≡ flip (lex xs ys)
unfolding lex flip
lex-flip [] [] = refl
lex-flip [] (y ∷ ys) = refl
lex-flip (x ∷ xs) [] = refl
lex-flip (x ∷ xs) (y ∷ ys) = ground (arith, lex-flip xs ys)

pub lex-eq : (xs ys : List ℕ) → lex xs ys ≡ Ordering.eq → xs ≡ ys
unfolding lex
lex-eq [] [] h = refl
lex-eq [] (y ∷ ys) h = cc
lex-eq (x ∷ xs) [] h = cc
lex-eq (x ∷ xs) (y ∷ ys) h = ground (arith, lex-eq xs ys)
