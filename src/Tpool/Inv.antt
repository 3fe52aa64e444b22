-- ===== src/Tpool/Inv.antt =====
-- spe_tpool.c: the invariant of the pool, whatever order the threads run in.
use spe.Base.{
  ℕ, ◌+◌, ◌≤◌, ◌<◌, ◌≡◌, refl, ◌∙◌, inl, inr, Bool, true, false, List, [], ◌∷◌, ◌++◌, arith, length,
  length-append, ltb, lt→ltb, ltb→lt, ◌==◌, if◌then◌else◌, Bool-cases,
}
use spe.Tpool.{
  Thread, User, outside, found, missed, holds, stops, released, Pool, update, Effect, inside,
  job_done, freed, left, apply,
}
use spe.Tpool.Family.{total, total-update, occurs, occurs-append, occurs_one}
use spe.Tpool.Balance.{resting, busy, living, tidy, ends, frees, leaves, Balance, resting-le}

-- The thread that the user has taken.
pub taken : User → ℕ → ℕ
taken (holds h i) j = if j == i then 1 else 0
taken u j = 0

-- The user between two steps.
abbrev pub Between : User → ℕ → List ℕ → Type 0
Between (found h) n l = 0 < length l
Between (stops k) n l = k ≤ n
Between _ n l = Unit

unfoldable pub resting_in : ℕ → (ℕ → Thread) → ℕ → ℕ
resting_in n t j = if ltb j n then resting (t j) else 0

-- Each thread at rest is in one place: once in the free list, or with the user; no other thread is.
-- A thread is counted until it ends, and each job that was accepted has ended, or is stored in one
-- thread, or has a thread of its own. The user takes a thread from a list that is not empty.
pub record Inv (s : Pool) : Type 0 where
  pub listed : (j : ℕ) → occurs j s.free_list + taken s.user j ≡ resting_in s.thread_num s.threads j
  pub neat : (j : ℕ) → tidy (s.threads j) ≡ true
  pub running : s.thread_run ≡ total living s.thread_num s.threads + s.once
  pub jobs : s.accepted ≡ s.ended + total busy s.thread_num s.threads + s.once
  pub between : Between s.user s.thread_num s.free_list

-- A thread changes.
resting-update :
    (n i j : ℕ) (t : ℕ → Thread) (x : Thread) (k : ℕ)
    → i < n
    → resting x ≡ resting (t i) + k
    → resting_in n (update t i x) j ≡ resting_in n t j + (if j == i then k else 0)
unfolding resting_in
resting-update n i j t x k h e = elim (Bool-cases (j == i)) [
  | inl q ↦ let same : j ≡ i = ground arith in rw (q, same, lt→ltb i n h) e
  | inr q ↦ rw q (omega arith)
]

-- A thread at rest gets a job.
pub resting-load :
    (n i j : ℕ) (t : ℕ → Thread) (x : Thread)
    → i < n
    → resting x ≡ 0
    → resting (t i) ≡ 1
    → resting_in n (update t i x) j + (if j == i then 1 else 0) ≡ resting_in n t j
unfolding resting_in
resting-load n i j t x h e f = elim (Bool-cases (j == i)) [
  | inl q ↦ let same : j ≡ i = ground arith in rw (q, same, lt→ltb i n h) (omega arith)
  | inr q ↦ rw q (omega arith)
]

pub tidy-update :
    (i j : ℕ) (t : ℕ → Thread) (x : Thread)
    → tidy (t j) ≡ true
    → tidy x ≡ true
    → tidy (update t i x j) ≡ true
tidy-update i j t x h k = elim (Bool-cases (j == i)) [ inl q ↦ rw q k | inr q ↦ rw q h ]

Between-append : (u : User) (n : ℕ) (l m : List ℕ) → Between u n l → Between u n (l ++ m)
Between-append (found h) n l m b = omega (arith, length-append l m)
Between-append (stops k) n l m b = b
Between-append outside n l m b = tt
Between-append (missed h) n l m b = tt
Between-append (holds h i) n l m b = tt
Between-append released n l m b = tt

none_freed : (b : Bool) → ◌≡◌ {A = ℕ} (if b then 0 else 0) 0
none_freed true = refl
none_freed false = refl

-- A step of a thread.
module _ (s : Pool) (inv : Inv s) (i : ℕ) (t : Thread) (h : i < s.thread_num) where
  open inv use {listed, neat, running, jobs, between}

  -- The counts, before the step's effect on the pool.
  pub record Owed (e : Effect) : Type 0 where
    places :
        (j : ℕ)
        → occurs j s.free_list + taken s.user j + (if j == i then frees e else 0)
          ≡ resting_in s.thread_num (update s.threads i t) j
    tidied : (j : ℕ) → tidy (update s.threads i t j) ≡ true
    counted : s.thread_run ≡ total living s.thread_num (update s.threads i t) + s.once + leaves e
    owed : s.accepted ≡ s.ended + ends e + total busy s.thread_num (update s.threads i t) + s.once

  pub turn-Owed : (e : Effect) → Balance (s.threads i) t e → Owed e
  turn-Owed e b = record {
    places = λ j.
        omega (arith, listed j, resting-update s.thread_num i j s.threads t (frees e) h b.rest);
    tidied = λ j. tidy-update i j s.threads t (neat j) b.neat;
    counted = omega (arith, running, total-update living s.thread_num s.threads i t h, b.lives);
    owed = omega (arith, jobs, total-update busy s.thread_num s.threads i t h, b.jobs);
  }

  pub turn-Inv :
      (e : Effect) → Owed e → Inv (apply e i (record s { threads = update s.threads i t }))
  unfolding apply
  turn-Inv inside o = record {
    listed = λ j. omega (arith, o.places j, none_freed (j == i));
    neat = o.tidied;
    running = omega (arith, o.counted);
    jobs = omega (arith, o.owed);
    between = between;
  }
  turn-Inv job_done o = record {
    listed = λ j. omega (arith, o.places j, none_freed (j == i));
    neat = o.tidied;
    running = omega (arith, o.counted);
    jobs = omega (arith, o.owed);
    between = between;
  }
  turn-Inv freed o = record {
    listed = λ j. omega (arith, o.places j, occurs-append j s.free_list (i ∷ []), occurs_one j i);
    neat = o.tidied;
    running = omega (arith, o.counted);
    jobs = omega (arith, o.owed);
    between = Between-append s.user s.thread_num s.free_list (i ∷ []) between;
  }
  turn-Inv left o = record {
    listed = λ j. omega (arith, o.places j, none_freed (j == i));
    neat = o.tidied;
    running = omega (arith, o.counted);
    jobs = omega (arith, o.owed);
    between = between;
  }

pub taken-at : {u : User} {h i : ℕ} (j : ℕ) → u ≡ holds h i → taken u j ≡ (if j == i then 1 else 0)
unfolding taken
taken-at j e = rw e refl

-- A user who has taken no thread.
abbrev pub EmptyHanded : User → Type 0
EmptyHanded (holds h i) = ⊥
EmptyHanded _ = Unit

pub taken-none : (u : User) (j : ℕ) → EmptyHanded u → taken u j ≡ 0
unfolding taken
taken-none (holds h i) j e = absurd e
taken-none outside j e = refl
taken-none (found h) j e = refl
taken-none (missed h) j e = refl
taken-none (stops k) j e = refl
taken-none released j e = refl

-- The thread that the user holds is at rest, so it has no job yet.
pub held-rests :
    {s : Pool} {h i : ℕ}
    → Inv s
    → s.user ≡ holds h i
    → (i < s.thread_num) × (resting (s.threads i) ≡ 1) × (occurs i s.free_list ≡ 0)
unfolding resting_in
held-rests {s} {h} {i} inv e =
    let one : taken s.user i ≡ 1 = taken-at i e ∙ ground arith in
    elim (Bool-cases (ltb i s.thread_num)) [
      | inl q ↦
          let sum : occurs i s.free_list + taken s.user i ≡ resting (s.threads i) =
            rw q at (inv.listed i) in
          (
            ltb→lt _ _ q,
            omega (arith, resting-le (s.threads i)),
            omega (arith, resting-le (s.threads i)),
          )
      | inr q ↦
          let sum : occurs i s.free_list + taken s.user i ≡ 0 = rw q at (inv.listed i) in
          absurd (omega arith)
    ]
