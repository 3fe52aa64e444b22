-- ===== src/Io/Calls.antt =====
-- spe_io.c, `spe_io_read`, `spe_io_readbytes` and `spe_io_readuntil`.
use mathlib.Core.Path.{subst}
use spe.Base.{
  ℕ, ◌+◌, ◌*◌, ◌≤◌, ◌<◌, ◌^◌, ◌≡◌, refl, sym, ◌∙◌, inl, inr, Bool, true, false, Option, some, List,
  length, if◌then◌else◌, Bool-cases, All,
}
use spe.Base.System.{other_errno, ReadAnswer}
use spe.Buf.{Buf}
use spe.Buf.Valid.{IsRealloc, IsTotal}
use spe.Buf.Total.{Owns}
use spe.Buf.Fd.{failed, closed}
use spe.Buf.Fd.Receive.{IsRead}
use spe.Io.{
  Io, read_any, read_bytes, read_until, Outcome, returned, read_common, guarded, read, readbytes,
  readuntil,
}
use spe.Io.Reader.{Ready, AtMost, Meets}
use spe.Io.Read.{read_common-Reads}

-- The three calls.
pub data Call : Type 0 where
  any : Call
  number : ℕ → Call
  delimiter : List ℕ → Call

abbrev pub asked : Call → Io → Io
asked any io = record io { rtype = read_any }
asked (number n) io = record io { rtype = read_bytes; rbytes = n }
asked (delimiter d) io = record io { rtype = read_until; delim = d }

-- `ASSERT(io && len && buf)`
abbrev pub Asserted : Call → Type 0
Asserted (number n) = 0 < n
Asserted _ = Unit

-- The guard of the three calls.
first_of_three {ℓ} :
    {A : Type ℓ} {b : Bool} (c : Bool) (x y z : A)
    → b ≡ true
    → (if b then x else if c then y else z) ≡ x
first_of_three c x y z e = rw e refl

second_of_three {ℓ} :
    {A : Type ℓ} {b c : Bool} (x y z : A)
    → b ≡ false
    → c ≡ true
    → (if b then x else if c then y else z) ≡ y
second_of_three x y z e f = rw (e, f) refl

third_of_three {ℓ} :
    {A : Type ℓ} {b c : Bool} (x y z : A)
    → b ≡ false
    → c ≡ false
    → (if b then x else if c then y else z) ≡ z
third_of_three x y z e f = rw (e, f) refl

module _ (realloc : List ℕ → ℕ → Option (List ℕ)) where
  abbrev pub perform : Call → List (ℕ → ReadAnswer) → Io → Buf → Option Outcome
  perform any answers io buf = read realloc answers io buf
  perform (number n) answers io buf = readbytes realloc answers io n buf
  perform (delimiter d) answers io buf = readuntil realloc answers io d buf

  -- What a call does, by the flags of the file: on a file that is closed or broken it returns at once and
  -- touches nothing.
  abbrev pub Replies :
      Bool → Bool → Call → List (ℕ → ReadAnswer) → Io → Buf → List ℕ → List ℕ → Type 0
  Replies true error q answers io buf xs ys =
      perform q answers io buf ≡ some (returned closed io buf answers)
  Replies false true q answers io buf xs ys =
      perform q answers io buf ≡ some (returned (failed other_errno) io buf answers)
  Replies false false q answers io buf xs ys =
      Meets answers (asked q io) xs ys (perform q answers io buf)

  perform-guarded :
      (q : Call) (answers : List (ℕ → ReadAnswer)) (io : Io) (buf : Buf)
      → perform q answers io buf ≡ guarded realloc answers io (asked q io) buf
  unfolding read readbytes readuntil
  perform-guarded any answers io buf = refl
  perform-guarded (number n) answers io buf = refl
  perform-guarded (delimiter d) answers io buf = refl

  module _ (law : IsRealloc realloc) (total : IsTotal realloc) where
    asked-Ready :
        (q : Call) (io : Io) (buf : Buf) (xs ys : List ℕ)
        → Owns buf xs
        → Owns io.rbuf ys
        → Asserted q
        → io.is_closed ≡ false
        → io.is_error ≡ false
        → Ready (asked q io) buf xs ys
    asked-Ready any io buf xs ys user own a c e = record {
      user = user;
      own = own;
      asks = tt;
      still_open = c;
      no_error = e;
    }
    asked-Ready (number n) io buf xs ys user own a c e = record {
      user = user;
      own = own;
      asks = a;
      still_open = c;
      no_error = e;
    }
    asked-Ready (delimiter d) io buf xs ys user own a c e = record {
      user = user;
      own = own;
      asks = tt;
      still_open = c;
      no_error = e;
    }

    pub perform-open :
        (m : ℕ) (q : Call) (answers : List (ℕ → ReadAnswer)) (io : Io) (buf : Buf) (xs ys : List ℕ)
        → All IsRead answers
        → All (AtMost m) answers
        → Owns buf xs
        → Owns io.rbuf ys
        → Asserted q
        → io.is_closed ≡ false
        → io.is_error ≡ false
        → length xs + length ys + m * length answers ≤ 2 ^ 25
        → Meets answers (asked q io) xs ys (perform q answers io buf)
    unfolding guarded
    perform-open m q answers io buf xs ys reads few user own a c e fits =
        let (res, o, run, follows, shows) =
          read_common-Reads realloc law total m answers (asked q io) buf xs ys reads few
            (asked-Ready q io buf xs ys user own a c e) fits in
        (res, o, perform-guarded q answers io buf ∙ third_of_three _ _ _ c e ∙ run, follows, shows)

    -- A read of a file, with `xs` at the caller and `ys` read before, whatever its flags.
    pub perform-Replies :
        (m : ℕ) (q : Call) (answers : List (ℕ → ReadAnswer)) (io : Io) (buf : Buf) (xs ys : List ℕ)
        → All IsRead answers
        → All (AtMost m) answers
        → Owns buf xs
        → Owns io.rbuf ys
        → Asserted q
        → length xs + length ys + m * length answers ≤ 2 ^ 25
        → Replies io.is_closed io.is_error q answers io buf xs ys
    unfolding guarded
    perform-Replies m q answers io buf xs ys reads few user own a fits =
        elim (Bool-cases io.is_closed) [
          | inl c ↦
              let out : perform q answers io buf ≡ some (returned closed io buf answers) =
                perform-guarded q answers io buf
                ∙ first_of_three io.is_error (some (returned closed io buf answers))
                    (some (returned (failed other_errno) io buf answers))
                    (read_common realloc answers (asked q io) buf) c in
              subst (λ k. Replies k io.is_error q answers io buf xs ys) (sym c) out
          | inr c ↦ elim (Bool-cases io.is_error) [
            | inl e ↦
                let out : perform q answers io buf
                    ≡ some (returned (failed other_errno) io buf answers) =
                  perform-guarded q answers io buf ∙ second_of_three _ _ _ c e in
                subst (λ k. Replies k io.is_error q answers io buf xs ys) (sym c)
                  (subst (λ k. Replies false k q answers io buf xs ys) (sym e) out)
            | inr e ↦
                let out = perform-open m q answers io buf xs ys reads few user own a c e fits in
                subst (λ k. Replies k io.is_error q answers io buf xs ys) (sym c)
                  (subst (λ k. Replies false k q answers io buf xs ys) (sym e) out)
          ]
        ]
