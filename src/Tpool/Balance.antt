-- ===== src/Tpool/Balance.antt =====
-- spe_tpool.c: what a step of a thread changes in the counts that the pool keeps.
use spe.Base.{ℕ, ◌+◌, ◌≤◌, ◌≡◌, refl, Bool, true, false, Option, none, some, arith}
use spe.Tpool.{
  Place, waits, works, returns, quits, gone, Thread, Effect, inside, job_done, freed, left,
  ThreadStep, start, stopped, finish, enlist, quit, new_thread,
}

-- At rest: no job, and not on the way back to the free list.
pub resting_at : Place → Option ℕ → ℕ
resting_at works h = 0
resting_at returns h = 0
resting_at p none = 1
resting_at p (some h) = 0

unfoldable pub resting : Thread → ℕ
unfolding resting_at
resting t = resting_at t.place t.handler

pub loaded : Option ℕ → ℕ
loaded none = 0
loaded (some h) = 1

-- A job was stored, and has not ended.
unfoldable pub busy : Thread → ℕ
unfolding loaded
busy t = loaded t.handler

pub living_at : Place → ℕ
living_at gone = 0
living_at p = 1

unfoldable pub living : Thread → ℕ
unfolding living_at
living t = living_at t.place

-- A thread in a handler has one, and a thread that comes back has none.
pub tidy_at : Place → Option ℕ → Bool
tidy_at works none = false
tidy_at returns (some h) = false
tidy_at p h = true

unfoldable pub tidy : Thread → Bool
unfolding tidy_at
tidy t = tidy_at t.place t.handler

abbrev pub ends : Effect → ℕ
ends job_done = 1
ends e = 0

abbrev pub frees : Effect → ℕ
frees freed = 1
frees e = 0

abbrev pub leaves : Effect → ℕ
leaves left = 1
leaves e = 0

-- The counts before and after a step.
pub record Balance (t t' : Thread) (e : Effect) : Type 0 where
  pub rest : resting t' ≡ resting t + frees e
  pub jobs : busy t' + ends e ≡ busy t
  pub lives : living t' + leaves e ≡ living t
  pub neat : tidy t' ≡ true

pub ThreadStep-Balance :
    {t t' : Thread} {e : Effect} → tidy t ≡ true → ThreadStep t t' e → Balance t t' e
unfolding resting resting_at busy loaded living living_at tidy tidy_at
ThreadStep-Balance {t} h (start p q s) = ground arith
ThreadStep-Balance {t} h (stopped p s) = ground arith
ThreadStep-Balance {t} h (finish p) = ground arith
ThreadStep-Balance {t} h (enlist p) = ground arith
ThreadStep-Balance {t} h (quit p) = ground arith

resting_at-le : (p : Place) (h : Option ℕ) → resting_at p h ≤ 1
unfolding resting_at
resting_at-le works h = omega arith
resting_at-le returns h = omega arith
resting_at-le waits none = omega arith
resting_at-le waits (some h) = omega arith
resting_at-le quits none = omega arith
resting_at-le quits (some h) = omega arith
resting_at-le gone none = omega arith
resting_at-le gone (some h) = omega arith

pub resting-le : (t : Thread) → resting t ≤ 1
unfolding resting
resting-le t = resting_at-le t.place t.handler

-- What storing a job in a thread at rest changes.
pub record Loaded (t t' : Thread) : Type 0 where
  pub rest : resting t' ≡ 0
  pub jobs : busy t' ≡ busy t + 1
  pub lives : living t' ≡ living t
  pub neat : tidy t' ≡ true

give_at :
    (o : Option ℕ) (b : Bool) (p : Place) (h : ℕ)
    → resting_at p o ≡ 1
    → Loaded
        (record { handler = o; stop = b; place = p })
        (record { handler = some h; stop = b; place = p })
unfolding resting resting_at busy loaded living living_at tidy tidy_at
give_at none b waits h e = ground arith
give_at none b quits h e = ground arith
give_at none b gone h e = ground arith
give_at none b works h e = absurd (omega arith)
give_at none b returns h e = absurd (omega arith)
give_at (some k) b p h e = ground arith

pub give-Loaded : (t : Thread) (h : ℕ) → resting t ≡ 1 → Loaded t (record t { handler = some h })
unfolding resting
give-Loaded t h e = give_at t.handler t.stop t.place h e

pub stop-Balance : (t : Thread) → tidy t ≡ true → Balance t (record t { stop = true }) inside
unfolding resting busy living tidy
stop-Balance t h = record { rest = omega arith; jobs = omega arith; lives = omega arith; neat = h }

pub new-counts :
    (resting new_thread ≡ 1)
    × (busy new_thread ≡ 0)
    × (living new_thread ≡ 1)
    × (tidy new_thread ≡ true)
unfolding resting resting_at busy loaded living living_at tidy tidy_at
new-counts = (refl, refl, refl, refl)
