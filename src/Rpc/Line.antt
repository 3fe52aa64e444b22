-- ===== src/Rpc/Line.antt =====
-- spe_rpc.c, `rpcParse`: what one line does.
use spe.Base.{
  ℕ, zero, suc, ◌+◌, ◌-◌, ◌≤◌, ◌<◌, ◌≡◌, refl, ap, inl, inr, Bool, true, false, not, ◌||◌, Option,
  none, some, List, [], ◌∷◌, ◌++◌, arith, length, take, drop, ltb, if◌then◌else◌, Bool-cases,
}
use spe.Base.Ints.{ℤ, is_not_positive}
use spe.Rpc.{
  ParseStatus, star, parm, content, Rpc, begins_with, Move, onward, errout, finished, overflow,
  number_at, on_number, is_negative, on_star, on_parm, on_last, on_part, on_content, on_line,
  is_under, is_over, less, is_done,
}

-- More bytes come in.
abbrev pub more : List ℕ → Rpc → Rpc
more zs s = record s { buffer = s.buffer ++ zs }

abbrev pub more_behind : List ℕ → Move → Move
more_behind zs (onward s) = onward (more zs s)
more_behind zs errout = errout
more_behind zs (finished s) = finished (more zs s)
more_behind zs overflow = overflow

take_front : (k : ℕ) (ys zs : List ℕ) → k ≤ length ys → take k (ys ++ zs) ≡ take k ys
take_front zero ys zs h = refl
take_front (suc k) [] zs h = absurd (omega arith)
take_front (suc k) (y ∷ ys) zs h = ap (◌∷◌ y) (take_front k ys zs (omega arith))

drop_front : (k : ℕ) (ys zs : List ℕ) → k ≤ length ys → drop k (ys ++ zs) ≡ drop k ys ++ zs
drop_front zero ys zs h = refl
drop_front (suc k) [] zs h = absurd (omega arith)
drop_front (suc k) (y ∷ ys) zs h = drop_front k ys zs (omega arith)

begins_with-append :
    (k : ℕ) (ys zs : List ℕ) → 0 < length ys → begins_with k (ys ++ zs) ≡ begins_with k ys
unfolding begins_with
begins_with-append k [] zs h = absurd (omega arith)
begins_with-append k (y ∷ ys) zs h = refl

number-append :
    (ys zs : List ℕ) (p : ℕ) → p + 2 ≤ length ys → number_at (ys ++ zs) p ≡ number_at ys p
unfolding number_at
number-append [] zs p h = absurd (omega arith)
number-append (y ∷ ys) zs p h = rw (take_front (p - 1) ys zs (omega arith)) refl

on_number-more :
    (zs : List ℕ) (refused : ℤ → Bool) (f g : ℤ → Rpc) (o : Option ℤ)
    → ((n : ℤ) → g n ≡ more zs (f n))
    → on_number refused g o ≡ more_behind zs (on_number refused f o)
unfolding on_number
on_number-more zs refused f g none h = refl
on_number-more zs refused f g (some n) h = elim (Bool-cases (refused n)) [
  | inl e ↦ rw e refl
  | inr e ↦ rw e (ap onward (h n))
]

if_errout :
    (zs : List ℕ) (b c : Bool) (m n : Move)
    → c ≡ b
    → n ≡ more_behind zs m
    → (if c then errout else n) ≡ more_behind zs (if b then errout else m)
if_errout zs true c m n e h = rw e refl
if_errout zs false c m n e h = rw e h

-- A line is treated alike, whatever stands behind it.
on_star-more :
    (s : Rpc) (zs : List ℕ) (p : ℕ)
    → p + 2 ≤ length s.buffer
    → on_star (more zs s) p ≡ more_behind zs (on_star s p)
unfolding on_star
on_star-more s zs p h =
    let first : begins_with 42 (s.buffer ++ zs) ≡ begins_with 42 s.buffer =
      begins_with-append 42 s.buffer zs (omega arith) in
    let tail : drop (p + 2) (s.buffer ++ zs) ≡ drop (p + 2) s.buffer ++ zs =
      drop_front (p + 2) s.buffer zs h in
    if_errout zs (ltb p 2 || not (begins_with 42 s.buffer))
      (ltb p 2 || not (begins_with 42 (s.buffer ++ zs)))
      (on_number is_not_positive
        (λ n. record s { param_left = n; buffer = drop (p + 2) s.buffer; status = parm })
        (number_at s.buffer p))
      (on_number is_not_positive
        (λ n. record s { param_left = n; buffer = drop (p + 2) (s.buffer ++ zs); status = parm })
        (number_at (s.buffer ++ zs) p))
      (ap (λ b. ltb p 2 || not b) first)
      (rw (number-append s.buffer zs p h) (
        on_number-more zs is_not_positive _ _ (number_at s.buffer p)
          (λ n. ap (λ l. record s { param_left = n; buffer = l; status = parm }) tail)))

on_parm-more :
    (s : Rpc) (zs : List ℕ) (p : ℕ)
    → p + 2 ≤ length s.buffer
    → on_parm (more zs s) p ≡ more_behind zs (on_parm s p)
unfolding on_parm
on_parm-more s zs p h =
    let first : begins_with 36 (s.buffer ++ zs) ≡ begins_with 36 s.buffer =
      begins_with-append 36 s.buffer zs (omega arith) in
    let tail : drop (p + 2) (s.buffer ++ zs) ≡ drop (p + 2) s.buffer ++ zs =
      drop_front (p + 2) s.buffer zs h in
    if_errout zs (ltb p 2 || not (begins_with 36 s.buffer))
      (ltb p 2 || not (begins_with 36 (s.buffer ++ zs)))
      (on_number is_negative
        (λ n. record s { data_left = n; buffer = drop (p + 2) s.buffer; status = content })
        (number_at s.buffer p))
      (on_number is_negative
        (λ n. record s { data_left = n; buffer = drop (p + 2) (s.buffer ++ zs); status = content })
        (number_at (s.buffer ++ zs) p))
      (ap (λ b. ltb p 2 || not b) first)
      (rw (number-append s.buffer zs p h) (
        on_number-more zs is_negative _ _ (number_at s.buffer p)
          (λ n. ap (λ l. record s { data_left = n; buffer = l; status = content }) tail)))

on_part-more :
    (s : Rpc) (zs : List ℕ) (p : ℕ)
    → p + 2 ≤ length s.buffer
    → on_part (more zs s) p ≡ more_behind zs (on_part s p)
unfolding on_part
on_part-more s zs p h = rw (take_front (p + 2) s.buffer zs h, drop_front (p + 2) s.buffer zs h) refl

on_last-more :
    (s : Rpc) (zs : List ℕ) (p : ℕ)
    → p + 2 ≤ length s.buffer
    → on_last (more zs s) p ≡ more_behind zs (on_last s p)
unfolding on_last
on_last-more s zs p h = elim (Bool-cases (is_done (less s.param_left 1))) [
  | inl e ↦ rw (e, take_front p s.buffer zs (omega arith), drop_front (p + 2) s.buffer zs h) refl
  | inr e ↦ rw (e, take_front p s.buffer zs (omega arith), drop_front (p + 2) s.buffer zs h) refl
]

on_content-more :
    (s : Rpc) (zs : List ℕ) (p : ℕ)
    → p + 2 ≤ length s.buffer
    → on_content (more zs s) p ≡ more_behind zs (on_content s p)
unfolding on_content
on_content-more s zs p h = elim (Bool-cases (is_under s.data_left p)) [
  | inl e ↦ rw e refl
  | inr e ↦ elim (Bool-cases (is_over s.data_left p)) [
    | inl f ↦ rw (e, f) (on_part-more s zs p h)
    | inr f ↦ rw (e, f) (on_last-more s zs p h)
  ]
]

pub on_line-more :
    (t : ParseStatus) (s : Rpc) (zs : List ℕ) (p : ℕ)
    → p + 2 ≤ length s.buffer
    → on_line t (more zs s) p ≡ more_behind zs (on_line t s p)
unfolding on_line
on_line-more star = on_star-more
on_line-more parm = on_parm-more
on_line-more content = on_content-more

-- A line is taken off the buffer with its CR LF.
abbrev pub Taken : List ℕ → Move → Type 0
Taken rest (onward s) = s.buffer ≡ rest
Taken rest (finished s) = s.buffer ≡ rest
Taken rest _ = Unit

if-Taken :
    (rest : List ℕ) (b : Bool) (m n : Move)
    → Taken rest m
    → Taken rest n
    → Taken rest (if b then m else n)
if-Taken rest true m n h k = h
if-Taken rest false m n h k = k

on_number-Taken :
    (rest : List ℕ) (refused : ℤ → Bool) (f : ℤ → Rpc) (o : Option ℤ)
    → ((n : ℤ) → (f n).buffer ≡ rest)
    → Taken rest (on_number refused f o)
unfolding on_number
on_number-Taken rest refused f none h = tt
on_number-Taken rest refused f (some n) h = if-Taken rest (refused n) errout (onward (f n)) tt (h n)

pub on_line-Taken :
    (t : ParseStatus) (s : Rpc) (p : ℕ) → Taken (drop (p + 2) s.buffer) (on_line t s p)
unfolding on_line on_star on_parm on_content on_part on_last
on_line-Taken star s p =
    if-Taken _ _ errout _ tt
      (on_number-Taken _ is_not_positive _ (number_at s.buffer p) (λ n. refl))
on_line-Taken parm s p =
    if-Taken _ _ errout _ tt (on_number-Taken _ is_negative _ (number_at s.buffer p) (λ n. refl))
on_line-Taken content s p = elim (Bool-cases (is_under s.data_left p)) [
  | inl e ↦ rw e tt
  | inr e ↦ elim (Bool-cases (is_over s.data_left p)) [
    | inl f ↦ rw (e, f) refl
    | inr f ↦ elim (Bool-cases (is_done (less s.param_left 1))) [
      | inl z ↦ rw (e, f, z) refl
      | inr z ↦ rw (e, f, z) refl
    ]
  ]
]
