-- ===== src/Tpool/Release.antt =====
-- spe_tpool.c, `SpeTpoolDeinit`: it does not wait for the threads.
use spe.Base.{ℕ, ◌≡◌}
use spe.Tpool.{released, Pool}

-- All threads are where they were, and the pool is gone.
pub record IsAbandoned (s t : Pool) : Type 0 where
  pub gone : t.user ≡ released
  pub still_running : t.thread_run ≡ s.thread_run
  pub same_place : (i : ℕ) → (t.threads i).place ≡ (s.threads i).place
