-- ===== src/Tests/Pools.antt =====
-- spe_tpool.c on a machine with one processor, which makes two threads.
use spe.Base.{◌+◌, some, [], ◌∷◌}
use spe.Tpool.{Pool, update, outside, pool_init}
use spe.Tpool.Inv.{Inv}

-- Job 7 was stored in thread 0.
abbrev one_job : Pool
one_job = record (pool_init 1) {
  user = outside;
  free_list = 1 ∷ [];
  accepted = (pool_init 1).accepted + 1;
  threads = update (pool_init 1).threads 0 (record ((pool_init 1).threads 0) { handler = some 7 });
}
