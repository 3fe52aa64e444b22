-- ===== src/Io/Reader.antt =====
-- spe_io.c, the abstract reader: it has read some bytes, looks whether the front of them is what is
-- wanted, and asks the kernel for more if not.
use mathlib.Core.Option
use spe.Base.{
  ℕ, ◌+◌, ◌≤◌, ◌<◌, ◌≡◌, ◌≢◌, ap, ◌∙◌, Bool, true, false, Option, none, some, List, [], ◌∷◌, ◌++◌,
  length, take, drop, ltb, leb, if◌then◌else◌,
}
use spe.Base.System.{Errno, eintr, ReadAnswer, got, at_end, read_failed}
use spe.Buf.{Buf}
use spe.Buf.Total.{Owns}
use spe.Buf.Fd.{ReadCode, buf_error, failed, closed, count}
use spe.Buf.Text.Find.{find_in}
use spe.Io.{
  Io, ReadType, read_none, read_any, read_bytes, read_until, buf_len, Outcome, waiting, returned,
}

-- How many of the bytes `ys` are what is wanted: all there are, `n` of them, or those up to the end
-- of the first delimiter `d`.
unfoldable pub front : ReadType → ℕ → List ℕ → List ℕ → Option ℕ
front read_none n d ys = none
front read_any n d ys = if ltb 0 (length ys) then some (length ys) else none
front read_bytes n d ys = if leb n (length ys) then some n else none
front read_until n d ys = Option.map (λ pos. pos + length d) (find_in ys d)

abbrev pub wanted : Io → List ℕ → Option ℕ
wanted io ys = front io.rtype io.rbytes io.delim ys

-- What a read comes to: it still waits, or returns a code and the bytes given to the caller, with the
-- bytes kept for the next read and the answers that were not used.
pub data Result : Type 0 where
  waits : Result
  gives : ReadCode → List ℕ → List ℕ → List (ℕ → ReadAnswer) → Result

-- The abstract reader. Each request is for at least `buf_len` bytes.
pub data Reads (front_of : List ℕ → Option ℕ)
    : List (ℕ → ReadAnswer) → List ℕ → Result → Type 0 where
  satisfied :
      {answers : List (ℕ → ReadAnswer)} {ys : List ℕ} {n : ℕ}
      → front_of ys ≡ some n
      → Reads front_of answers ys (gives (count n) (take n ys) (drop n ys) answers)
  blocked : {ys : List ℕ} → front_of ys ≡ none → Reads front_of [] ys waits
  filled :
      {a : ℕ → ReadAnswer} {answers : List (ℕ → ReadAnswer)} {ys zs : List ℕ} {n : ℕ} {r : Result}
      → front_of ys ≡ none
      → buf_len ≤ n
      → a n ≡ got zs
      → Reads front_of answers (ys ++ zs) r
      → Reads front_of (a ∷ answers) ys r
  interrupted :
      {a : ℕ → ReadAnswer} {answers : List (ℕ → ReadAnswer)} {ys : List ℕ} {n : ℕ} {r : Result}
      → front_of ys ≡ none
      → buf_len ≤ n
      → a n ≡ read_failed eintr
      → Reads front_of answers ys r
      → Reads front_of (a ∷ answers) ys r
  broken :
      {a : ℕ → ReadAnswer} {answers : List (ℕ → ReadAnswer)} {ys : List ℕ} {n : ℕ} {e : Errno}
      → front_of ys ≡ none
      → buf_len ≤ n
      → a n ≡ read_failed e
      → e ≢ eintr
      → Reads front_of (a ∷ answers) ys (gives (failed e) ys [] answers)
  ended :
      {a : ℕ → ReadAnswer} {answers : List (ℕ → ReadAnswer)} {ys : List ℕ} {n : ℕ}
      → front_of ys ≡ none
      → buf_len ≤ n
      → a n ≡ at_end
      → Reads front_of (a ∷ answers) ys (gives closed ys [] answers)

-- The flags that a code leaves behind.
abbrev pub hits_end : ReadCode → Bool
hits_end closed = true
hits_end (failed e) = false
hits_end buf_error = false
hits_end (count n) = false

abbrev pub breaks : ReadCode → Bool
breaks (failed e) = true
breaks buf_error = true
breaks closed = false
breaks (count n) = false

-- The outcome of the code is that of the abstract reader: the bytes given are behind the `xs` that
-- the caller had, those kept are in the buffer of the file.
abbrev pub Shows : Io → List ℕ → Result → Outcome → Type 0
Shows io xs waits o = o ≡ waiting
Shows io xs (gives code given kept left) o =
    (b : Buf × Buf) × (o
      ≡ returned code
          (record io {
            rbuf = b.1;
            rtype = read_none;
            is_closed = hits_end code;
            is_error = breaks code;
          })
          b.0 left)
    × Owns b.0 (xs ++ given)
    × Owns b.1 kept

-- `spe_io_readbytes` asserts that the number is not 0.
abbrev pub Asks : ReadType → ℕ → Type 0
Asks read_bytes n = 0 < n
Asks _ n = Unit

-- The file is open, `xs` is with the caller and `ys` was read before.
pub record Ready (io : Io) (buf : Buf) (xs ys : List ℕ) : Type 0 where
  pub user : Owns buf xs
  pub own : Owns io.rbuf ys
  pub asks : Asks io.rtype io.rbytes
  pub still_open : io.is_closed ≡ false
  pub no_error : io.is_error ≡ false

pub Ready-read :
    {io : Io} {buf : Buf} {xs ys zs : List ℕ}
    → Ready io buf xs ys
    → (b : Buf) → Owns b zs
    → Ready (record io { rbuf = b }) buf xs zs
Ready-read h b own = record {
  user = h.user;
  own = own;
  asks = h.asks;
  still_open = h.still_open;
  no_error = h.no_error;
}

-- The flags of an open file are those that a number of bytes leaves behind.
pub flags_down :
    {io : Io} {buf : Buf} {xs ys : List ℕ}
    → Ready io buf xs ys
    → (n : ℕ) (b : Buf × Buf) (left : List (ℕ → ReadAnswer))
    → returned (count n) (record io { rbuf = b.1; rtype = read_none }) b.0 left
      ≡ returned
          (count n)
          (record io { rbuf = b.1; rtype = read_none; is_closed = false; is_error = false })
          b.0
          left
flags_down {io} h n b left =
    let with : Bool → Bool → Outcome = λ c e.
      returned (count n) (record io { rbuf = b.1; rtype = read_none; is_closed = c; is_error = e })
        b.0 left in
    ap (λ c. with c io.is_error) h.still_open ∙ ap (with false) h.no_error

-- Each answer brings `m` bytes at most.
abbrev pub AtMost : ℕ → (ℕ → ReadAnswer) → Type 0
AtMost m a = (n : ℕ) (zs : List ℕ) → a n ≡ got zs → length zs ≤ m

-- What the reader and the code come to, from `ys` on.
abbrev pub Meets : List (ℕ → ReadAnswer) → Io → List ℕ → List ℕ → Option Outcome → Type 0
Meets answers io xs ys run =
    (res : Result) × (o : Outcome) × (run ≡ some o)
    × Reads (wanted io) answers ys res
    × Shows io xs res o

-- What the kernel brought, and the answers behind it.
pub data Comes : List (ℕ → ReadAnswer) → List ℕ → List (ℕ → ReadAnswer) → Type 0 where
  nothing : {answers : List (ℕ → ReadAnswer)} → Comes answers [] answers
  more :
      {a : ℕ → ReadAnswer} {answers left : List (ℕ → ReadAnswer)} {zs ws : List ℕ} {n : ℕ}
      → buf_len ≤ n
      → a n ≡ got zs
      → Comes answers ws left
      → Comes (a ∷ answers) (zs ++ ws) left
