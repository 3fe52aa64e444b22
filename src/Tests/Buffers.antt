-- ===== src/Tests/Buffers.antt =====
-- spe_buf.c at concrete inputs.
use mathlib.Core.Option
use spe.Base.{
  ℕ, ◌≡◌, refl, inl, inr, Bool, some, List, [], ◌∷◌, ◌++◌, arith, read_at, write_at, Bool-cases,
  leb, leb→le, if◌then◌else◌,
}
use spe.Base.System.{ReadAnswer, got, at_end}
use spe.Buf.{Buf, bytes, append, lconsume, rconsume}
use spe.Buf.Valid.{IsValid}
use spe.Buf.Append.{Stored, append-Stored}
use spe.Buf.Total.{Owns}
use spe.Buf.Run.{
  appends, copies, lconsumes, rconsumes, cleans, run, run-Owns, spec, spec_run, Call, Fits,
}
use spe.Buf.Fd.{read_fd_append, ReadCode}
use spe.Buf.Fd.Receive.{IsRead, Received, read_fd_append-Received}
use spe.Tests.Environment.{plain_realloc, plain_realloc-IsRealloc, plain_realloc-IsTotal}

-- " a=b" behind two bytes that were consumed, in a block of 10
abbrev line : Buf
line = record { mem = 9 ∷ 9 ∷ 32 ∷ 97 ∷ 61 ∷ 98 ∷ 0 ∷ 7 ∷ 7 ∷ 7 ∷ []; off = 2; len = 4; size = 10 }

line-IsValid : IsValid line
line-IsValid = record {
  block = refl;
  small = omega arith;
  room = inr (omega arith);
  ended = inr refl;
}

line-Owns : Owns line (32 ∷ 97 ∷ 61 ∷ 98 ∷ [])
line-Owns = record { valid = line-IsValid; content = refl; modest = omega arith }

append-Stored_example :
    (r : Bool × Buf) × (append plain_realloc line (1 ∷ 2 ∷ 3 ∷ 4 ∷ []) ≡ some r)
    × Stored plain_realloc line (bytes line ++ (1 ∷ 2 ∷ 3 ∷ 4 ∷ [])) r
append-Stored_example =
    append-Stored plain_realloc plain_realloc-IsRealloc line (1 ∷ 2 ∷ 3 ∷ 4 ∷ []) line-IsValid
      (omega arith)

abbrev script : List Call
script =
    appends (1 ∷ 2 ∷ 3 ∷ 4 ∷ 5 ∷ 6 ∷ 7 ∷ [])
    ∷ lconsumes 3
    ∷ rconsumes 2
    ∷ copies (5 ∷ [])
    ∷ cleans
    ∷ []

fits : Fits script (32 ∷ 97 ∷ 61 ∷ 98 ∷ [])
unfolding spec
fits = omega arith

run-Owns_example :
    (r : Buf) × (run plain_realloc script line ≡ some r)
    × Owns r (spec_run script (32 ∷ 97 ∷ 61 ∷ 98 ∷ []))
run-Owns_example =
    run-Owns plain_realloc plain_realloc-IsRealloc plain_realloc-IsTotal script line
      (32 ∷ 97 ∷ 61 ∷ 98 ∷ []) line-Owns (omega arith) fits

-- A kernel that has four bytes.
abbrev four_bytes : ℕ → ReadAnswer
four_bytes n = if leb 4 n then got (82 ∷ 83 ∷ 84 ∷ 85 ∷ []) else at_end

four_bytes-IsRead : IsRead four_bytes
four_bytes-IsRead n xs e = elim (Bool-cases (leb 4 n)) [
  | inl t ↦
      let same : got (82 ∷ 83 ∷ 84 ∷ 85 ∷ []) ≡ got xs = rw t at e in
      let bytes_are : ◌≡◌ {A = List ℕ} (82 ∷ 83 ∷ 84 ∷ 85 ∷ []) xs = cc in
      rw (← bytes_are) (omega arith, omega (arith, leb→le _ _ t))
  | inr t ↦ let same : at_end ≡ got xs = rw t at e in cc
]

read_fd_append-Received_example :
    (r : ReadCode × Buf) × (read_fd_append plain_realloc four_bytes 16 line ≡ some r)
    × Received plain_realloc line (λ xs. bytes line ++ xs) 16 four_bytes r
read_fd_append-Received_example =
    read_fd_append-Received plain_realloc plain_realloc-IsRealloc four_bytes four_bytes-IsRead line
      16 line-IsValid (omega arith)

-- The calls really run: the bytes of the script's content after its first three calls.
abbrev half_script : List Call
half_script = appends (1 ∷ 2 ∷ 3 ∷ 4 ∷ 5 ∷ 6 ∷ 7 ∷ []) ∷ lconsumes 3 ∷ rconsumes 2 ∷ []

run_half :
    Option.map bytes (run plain_realloc half_script line) ≡ some (98 ∷ 1 ∷ 2 ∷ 3 ∷ 4 ∷ 5 ∷ [])
unfolding run append lconsume rconsume read_at write_at
run_half = refl
