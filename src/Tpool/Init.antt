-- ===== src/Tpool/Init.antt =====
-- spe_tpool.c, `SpeTpoolInit`, and the states that come behind it.
use spe.Base.{ℕ, ◌≡◌, ltb, if◌then◌else◌}
use spe.Tpool.{outside, Pool, new_thread}
use spe.Tpool.Family.{occurs}
use spe.Tpool.Inv.{Inv}

-- The pool in the loop of `SpeTpoolInit`, with `i` threads enabled.
record Enabled (i : ℕ) (s : Pool) : Type 0 where
  listed : (j : ℕ) → occurs j s.free_list ≡ (if ltb j i then 1 else 0)
  fresh : (j : ℕ) → s.threads j ≡ new_thread
  counted : s.thread_run ≡ i
  quiet : (s.user ≡ outside) × (s.once ≡ 0) × (s.accepted ≡ 0) × (s.ended ≡ 0)
