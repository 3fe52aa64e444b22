-- ===== src/Buf/Run.antt =====
-- spe_buf.c as an abstract data type: a buffer under any sequence of calls is a list of bytes.
use spe.Base.{
  ℕ, ◌-◌, ◌≤◌, ◌<◌, ◌^◌, ◌≡◌, refl, Option, some, List, [], ◌∷◌, ◌++◌, arith, length, length-append,
  take, drop, ◌>>=◌,
}
use spe.Buf.{Buf, append, copy, lconsume, rconsume, clean}
use spe.Buf.Valid.{IsRealloc, IsTotal}
use spe.Buf.Total.{Owns, append-Owns, copy-Owns, lconsume-Owns, rconsume-Owns, clean-Owns}

-- A call that changes the content.
pub data Call : Type 0 where
  appends : List ℕ → Call
  copies : List ℕ → Call
  lconsumes : ℕ → Call
  rconsumes : ℕ → Call
  cleans : Call

-- What the call does to the list of bytes.
unfoldable pub spec : Call → List ℕ → List ℕ
spec (appends src) xs = xs ++ src
spec (copies src) xs = src
spec (lconsumes n) xs = drop n xs
spec (rconsumes n) xs = take (length xs - n) xs
spec cleans xs = []

pub spec_run : List Call → List ℕ → List ℕ
unfolding spec
spec_run [] xs = xs
spec_run (c ∷ cs) xs = spec_run cs (spec c xs)

-- No content on the way is longer than 32 MiB.
abbrev pub Fits : List Call → List ℕ → Type 0
Fits [] xs = length xs ≤ 2 ^ 25
Fits (c ∷ cs) xs = (length (spec c xs) ≤ 2 ^ 25) × Fits cs (spec c xs)

module _ (realloc : List ℕ → ℕ → Option (List ℕ)) where
  pub call : Call → Buf → Option Buf
  call (appends src) b = append realloc b src >>= λ r. some r.1
  call (copies src) b = copy realloc b src >>= λ r. some r.1
  call (lconsumes n) b = lconsume b n
  call (rconsumes n) b = rconsume b n
  call cleans b = clean b

  unfoldable pub run : List Call → Buf → Option Buf
  unfolding call
  run [] b = some b
  run (c ∷ cs) b = call c b >>= run cs

  module _ (law : IsRealloc realloc) (total : IsTotal realloc) where
    call-Owns :
        (c : Call) (b : Buf) (xs : List ℕ)
        → Owns b xs
        → 0 < b.size
        → length (spec c xs) ≤ 2 ^ 25
        → (r : Buf) × (call c b ≡ some r) × Owns r (spec c xs) × (0 < r.size)
    unfolding call spec
    call-Owns (appends src) b xs o h fits =
        let (r, e, owns, block) =
          append-Owns realloc law total src o (omega (arith, length-append xs src)) in
        (r, rw e, owns, block)
    call-Owns (copies src) b xs o h fits =
        let (r, e, owns, block) = copy-Owns realloc law total src o fits in (r, rw e, owns, block)
    call-Owns (lconsumes n) b xs o h fits = lconsume-Owns n o h
    call-Owns (rconsumes n) b xs o h fits = rconsume-Owns n o h
    call-Owns cleans b xs o h fits =
        let (r, e, owns, size) = clean-Owns o in (r, e, owns, omega arith)

    -- A buffer with a block, under any sequence of `spe_buf_append`, `spe_buf_copy`,
    -- `spe_buf_lconsume`, `spe_buf_rconsume` and `spe_buf_clean`, holds what the list
    -- operations compute and accesses nothing outside its block, if no `realloc` is refused and no
    -- content on the way is longer than 32 MiB.
    pub run-Owns :
        (cs : List Call) (b : Buf) (xs : List ℕ)
        → Owns b xs
        → 0 < b.size
        → Fits cs xs
        → (r : Buf) × (run cs b ≡ some r) × Owns r (spec_run cs xs)
    unfolding run spec_run
    run-Owns [] b xs o h fits = (b, refl, o)
    run-Owns (c ∷ cs) b xs o h fits =
        let (m, e, owns, block) = call-Owns c b xs o h fits.0 in
        let (r, q, done) = run-Owns cs m (spec c xs) owns block fits.1 in (r, rw e q, done)
