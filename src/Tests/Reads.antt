-- ===== src/Tests/Reads.antt =====
-- spe_io.c, the reads, at concrete inputs.
use spe.Base.{
  ℕ, ◌≤◌, ◌≡◌, refl, inr, false, some, List, [], ◌∷◌, ◌++◌, arith, length, take, drop, leb, leb→le,
  le→leb, if◌then◌else◌, Bool-cases, inl,
}
use spe.Base.System.{ReadAnswer, got, eintr, read_failed, at_end}
use spe.Buf.{Buf, create}
use spe.Buf.Total.{Owns, create-Owns}
use spe.Buf.Fd.{count}
use spe.Buf.Fd.Receive.{IsRead}
use spe.Io.{Io, read_none, returned, readbytes}
use spe.Io.Reader.{AtMost, Comes}
use spe.Io.Calls.{delimiter, Replies, perform-Replies}
use spe.Io.Complete.{IsGiving, readbytes_completes}
use spe.Tests.Environment.{plain_realloc, plain_realloc-IsRealloc, plain_realloc-IsTotal}

-- "ab" was read before.
abbrev begun : Io
begun = record {
  rbuf = record { mem = 97 ∷ 98 ∷ 0 ∷ 7 ∷ []; off = 0; len = 2; size = 4 };
  delim = [];
  rbytes = 0;
  rtype = read_none;
  is_closed = false;
  is_error = false;
}

begun-Owns : Owns begun.rbuf (97 ∷ 98 ∷ [])
begun-Owns = record {
  valid = record { block = refl; small = omega arith; room = inr (omega arith); ended = inr refl };
  content = refl;
  modest = omega arith;
}

-- "c\n"
abbrev c_line : List ℕ
c_line = 99 ∷ 10 ∷ []

abbrev line_end : ℕ → ReadAnswer
line_end n = if leb 2 n then got c_line else at_end

line_end-got : (n : ℕ) (zs : List ℕ) → line_end n ≡ got zs → (length zs ≡ 2) × (2 ≤ n)
line_end-got n zs e = elim (Bool-cases (leb 2 n)) [
  | inl t ↦
      let same : got c_line ≡ got zs = rw t at e in
      let bytes_are : c_line ≡ zs = cc in rw (← bytes_are) (refl, leb→le _ _ t)
  | inr t ↦ let same : at_end ≡ got zs = rw t at e in cc
]

line_end-IsRead : IsRead line_end
line_end-IsRead n zs e = let (two, room) = line_end-got n zs e in (omega arith, omega arith)

line_end-AtMost : AtMost 2 line_end
line_end-AtMost n zs e = let (two, room) = line_end-got n zs e in omega arith

-- A signal arrives, then the bytes.
abbrev signal_first : List (ℕ → ReadAnswer)
signal_first = (λ n. read_failed eintr) ∷ line_end ∷ []

perform-Replies_example :
    Replies plain_realloc false false
      (delimiter (10 ∷ []))
      signal_first
      begun
      create
      []
      (97 ∷ 98 ∷ [])
perform-Replies_example =
    perform-Replies plain_realloc plain_realloc-IsRealloc plain_realloc-IsTotal 2
      (delimiter (10 ∷ [])) signal_first begun create [] (97 ∷ 98 ∷ [])
      ((λ n zs e. cc), (line_end-IsRead, tt)) ((λ n zs e. cc), (line_end-AtMost, tt)) create-Owns
      begun-Owns tt (omega arith)

line_end-IsGiving : IsGiving line_end
line_end-IsGiving n h = (c_line, rw (le→leb 2 n (omega arith)) refl, omega arith)

readbytes_completes_example :
    (zs : List ℕ) × (left : List (ℕ → ReadAnswer)) × (b : Buf × Buf) × (readbytes plain_realloc
        (line_end ∷ line_end ∷ [])
        begun
        3
        create
      ≡ some (
          returned
            (count 3)
            (record begun {
              rbuf = b.1;
              rbytes = 3;
              rtype = read_none;
              is_closed = false;
              is_error = false;
            })
            b.0
            left))
    × Comes (line_end ∷ line_end ∷ []) zs left
    × Owns b.0 ([] ++ take 3 ((97 ∷ 98 ∷ []) ++ zs))
    × Owns b.1 (drop 3 ((97 ∷ 98 ∷ []) ++ zs))
readbytes_completes_example =
    readbytes_completes plain_realloc plain_realloc-IsRealloc plain_realloc-IsTotal 2 3
      (line_end ∷ line_end ∷ []) begun create [] (97 ∷ 98 ∷ [])
      (line_end-IsRead, (line_end-IsRead, tt)) (line_end-AtMost, (line_end-AtMost, tt))
      (line_end-IsGiving, (line_end-IsGiving, tt)) create-Owns begun-Owns (omega arith) refl refl
      (omega arith) (omega arith)
