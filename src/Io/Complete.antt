-- ===== src/Io/Complete.antt =====
-- spe_io.c, `spe_io_readbytes` of a kernel that has bytes: it returns.
use mathlib.Core.List.{append_assoc, append-nil}
use mathlib.Core.Path.{subst}
use spe.Base.{
  ℕ, ◌+◌, ◌*◌, ◌≤◌, ◌<◌, ◌^◌, ◌≡◌, ◌≢◌, refl, sym, ap, ◌∙◌, false, Option, none, some, List, [],
  ◌++◌, arith, length, take, drop, length-append, All,
}
use spe.Base.System.{ReadAnswer, got}
use spe.Buf.{Buf}
use spe.Buf.Valid.{IsRealloc, IsTotal}
use spe.Buf.Total.{Owns}
use spe.Buf.Fd.{count}
use spe.Buf.Fd.Receive.{IsRead}
use spe.Io.{Io, read_none, read_bytes, buf_len, returned, readbytes}
use spe.Io.Reader.{
  front, Result, gives, Reads, satisfied, blocked, filled, interrupted, broken, ended, Shows,
  AtMost, Comes, nothing, more,
}
use spe.Io.Calls.{number, asked, perform-open}

-- A kernel that has at least one byte for each request.
abbrev pub IsGiving : (ℕ → ReadAnswer) → Type 0
IsGiving a = (n : ℕ) → buf_len ≤ n → (zs : List ℕ) × (a n ≡ got zs) × (0 < length zs)

-- The reader got what it wanted, out of `ys` and what came.
abbrev Satisfies : (List ℕ → Option ℕ) → List (ℕ → ReadAnswer) → List ℕ → Result → Type 0
Satisfies f answers ys res =
    (n : ℕ) × (zs : List ℕ) × (left : List (ℕ → ReadAnswer)) × (res
      ≡ gives (count n) (take n (ys ++ zs)) (drop n (ys ++ zs)) left)
    × (f (ys ++ zs) ≡ some n)
    × Comes answers zs left

given :
    {a : ℕ → ReadAnswer} {n : ℕ} {zs : List ℕ}
    → IsGiving a
    → buf_len ≤ n
    → a n ≡ got zs
    → 0 < length zs
given {a} {n} {zs} g h e =
    let (ws, q, some_there) = g n h in
    let same : ws ≡ zs = cc in subst (λ l. 0 < length l) same some_there

not_given :
    {a : ℕ → ReadAnswer} {n : ℕ} {w : ReadAnswer}
    → IsGiving a
    → buf_len ≤ n
    → a n ≡ w
    → ((zs : List ℕ) → w ≢ got zs)
    → ⊥
not_given {a} {n} {w} g h e ne = let (ws, q, _) = g n h in ne ws (sym e ∙ q)

Reads-Satisfies :
    {f : List ℕ → Option ℕ} {answers : List (ℕ → ReadAnswer)} {ys : List ℕ} {res : Result} (len : ℕ)
    → All IsGiving answers
    → ((l : List ℕ) → f l ≡ none → length l < len)
    → len ≤ length ys + length answers
    → Reads f answers ys res
    → Satisfies f answers ys res
Reads-Satisfies len g need h (satisfied {answers} {ys} {n} e) =
    (n, [], answers, rw (append-nil ys) refl, rw (append-nil ys) e, nothing)
Reads-Satisfies len g need h (blocked {ys} e) = absurd (omega (arith, need ys e))
Reads-Satisfies len g need h (filled {a} {answers} {ys} {zs} {n} e asked q rest) =
    let (k, ws, left, same, met, came) =
      Reads-Satisfies len g.1 need (omega (arith, length-append ys zs, given g.0 asked q)) rest in
    (
      k,
      zs ++ ws,
      left,
      rw (← append_assoc ys zs ws) same,
      rw (← append_assoc ys zs ws) met,
      more asked q came,
    )
Reads-Satisfies len g need h (interrupted e asked q rest) =
    absurd (not_given g.0 asked q (λ zs w. cc))
Reads-Satisfies len g need h (broken e asked q ne) = absurd (not_given g.0 asked q (λ zs w. cc))
Reads-Satisfies len g need h (ended e asked q) = absurd (not_given g.0 asked q (λ zs w. cc))

bytes-missing : (n : ℕ) (d l : List ℕ) → front read_bytes n d l ≡ none → length l < n
unfolding front
bytes-missing n d l e = ground arith

bytes-front : (n k : ℕ) (d l : List ℕ) → front read_bytes n d l ≡ some k → k ≡ n
unfolding front
bytes-front n k d l e = ground arith

-- When the kernel brings at least one byte each time, at most `m`, and there are enough answers, `spe_io_readbytes` of an open file
-- returns the number that it was asked for: with `ys` read before and `zs` brought by the kernel, the caller has the first `len` of
-- `ys ++ zs` behind the `xs` it had, and the rest waits in the buffer of the file.
pub readbytes_completes :
    (realloc : List ℕ → ℕ → Option (List ℕ)) (law : IsRealloc realloc) (total : IsTotal realloc)
    (m len : ℕ) (answers : List (ℕ → ReadAnswer)) (io : Io) (buf : Buf) (xs ys : List ℕ)
    → All IsRead answers
    → All (AtMost m) answers
    → All IsGiving answers
    → Owns buf xs
    → Owns io.rbuf ys
    → 0 < len
    → io.is_closed ≡ false
    → io.is_error ≡ false
    → length xs + length ys + m * length answers ≤ 2 ^ 25
    → len ≤ length ys + length answers
    → (zs : List ℕ) × (left : List (ℕ → ReadAnswer)) × (b : Buf × Buf) × (readbytes realloc answers
          io len buf
        ≡ some (
            returned
              (count len)
              (record io {
                rbuf = b.1;
                rbytes = len;
                rtype = read_none;
                is_closed = false;
                is_error = false;
              })
              b.0
              left))
      × Comes answers zs left
      × Owns b.0 (xs ++ take len (ys ++ zs))
      × Owns b.1 (drop len (ys ++ zs))
readbytes_completes realloc law total m len answers io buf xs ys reads few giving user own pos c e
      fits enough =
    let (res, o, run, follows, shows) =
      perform-open realloc law total m (number len) answers io buf xs ys reads few user own pos c e
        fits in
    let (n, zs, left, same, met, came) =
      Reads-Satisfies len giving (bytes-missing len io.delim) enough follows in
    let all : n ≡ len = bytes-front len n io.delim (ys ++ zs) met in
    let (b, q, gave, kept) : Shows (asked (number len) io) xs
        (gives (count len) (take len (ys ++ zs)) (drop len (ys ++ zs)) left) o =
      subst (λ r. Shows (asked (number len) io) xs r o) (rw all at same) shows in
    (zs, left, b, run ∙ ap some q, came, gave, kept)
