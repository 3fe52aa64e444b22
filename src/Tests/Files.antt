-- ===== src/Tests/Files.antt =====
-- spe_io.c at concrete inputs.
use spe.Base.{
  ℕ, zero, suc, ◌≤◌, ◌≡◌, refl, inl, inr, false, some, List, [], ◌∷◌, ◌++◌, arith, length, All,
}
use spe.Base.System.{WriteAnswer, wrote}
use spe.Buf.{Buf, bytes}
use spe.Buf.Valid.{IsValid}
use spe.Io.{Io, read_none, write}
use spe.Io.Write.{IsWrite, IsServing, write_completes}

-- "hello" in a block of 8
abbrev hello : Buf
hello = record { mem = 104 ∷ 101 ∷ 108 ∷ 108 ∷ 111 ∷ 0 ∷ 7 ∷ 7 ∷ []; off = 0; len = 5; size = 8 }

hello-IsValid : IsValid hello
hello-IsValid = record {
  block = refl;
  small = omega arith;
  room = inr (omega arith);
  ended = inr refl;
}

abbrev file_io : Io
file_io = record {
  rbuf = hello;
  delim = [];
  rbytes = 0;
  rtype = read_none;
  is_closed = false;
  is_error = false;
}

-- Up to `n` bytes are taken.
abbrev at_most : ℕ → ℕ → ℕ
at_most zero k = 0
at_most (suc n) zero = 0
at_most (suc n) (suc k) = suc (at_most n k)

at_most-bound : (n k : ℕ) → at_most n k ≤ k
at_most-bound zero k = omega arith
at_most-bound (suc n) zero = omega arith
at_most-bound (suc n) (suc k) = omega (arith, at_most-bound n k)

abbrev takes : ℕ → List ℕ → WriteAnswer
takes n xs = wrote (at_most n (length xs))

takes-IsWrite : (n : ℕ) → IsWrite (takes n)
takes-IsWrite n xs k e =
    let size : at_most n (length xs) ≡ k = cc in omega (arith, at_most-bound n (length xs))

takes-IsServing : (n : ℕ) → IsServing (takes (suc n))
takes-IsServing n [] = (0, refl, inr refl)
takes-IsServing n (x ∷ xs) = (suc (at_most n (length xs)), refl, inl (omega arith))

abbrev slow_kernel : List (List ℕ → WriteAnswer)
slow_kernel = takes 1 ∷ takes 1 ∷ takes 2 ∷ takes 1 ∷ takes 1 ∷ []

slow_kernel-IsServing : All IsServing slow_kernel
slow_kernel-IsServing = (
  takes-IsServing 0,
  (takes-IsServing 0, (takes-IsServing 1, (takes-IsServing 0, (takes-IsServing 0, tt)))),
)

slow_kernel-IsWrite : All IsWrite slow_kernel
slow_kernel-IsWrite = (
  takes-IsWrite 1,
  (takes-IsWrite 1, (takes-IsWrite 2, (takes-IsWrite 1, (takes-IsWrite 1, tt)))),
)

write_completes_example :
    write slow_kernel file_io hello (1 ∷ [])
    ≡ some (some (some 5, file_io, (1 ∷ []) ++ bytes hello))
write_completes_example =
    write_completes slow_kernel file_io hello (1 ∷ []) slow_kernel-IsWrite slow_kernel-IsServing
      hello-IsValid refl refl (omega arith)
