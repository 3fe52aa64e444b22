-- ===== src/Tpool.antt =====
-- src/spe_tpool.c: the pool of threads. A state is what `gTpool` holds, with the point that each
-- thread has come to in `threadRoutine`, and the one that the user of the pool has come to in
-- `SpeTpoolDo` or `SpeTpoolDeinit`. A step is what happens between two points where another thread
-- may come in: behind a lock, or at an access that no lock guards. One thread uses the pool.
pub mod Family
pub mod Balance
pub mod Inv
pub mod Steps
pub mod Init
pub mod Release
use spe.Base.{
  ℕ, zero, suc, ◌+◌, ◌-◌, ◌*◌, ◌<◌, ◌≡◌, Bool, true, false, Option, none, some, List, [], ◌∷◌, ◌++◌,
  ltb, ◌==◌, if◌then◌else◌,
}

-- MAX_THREAD
abbrev pub max_thread : ℕ
max_thread = 64

-- Where a thread is in `threadRoutine`: before the test of the inner loop; in the handler; behind it,
-- before the free list; behind the outer loop; ended.
pub data Place : Type 0 where
  waits works returns quits gone : Place

-- `spe_thread_t`; the handler is the number of a job, and `none` is SPE_HANDLER_NULL.
pub record Thread : Type 0 where
  pub handler : Option ℕ
  pub stop : Bool
  pub place : Place

-- Where the user is: outside; in `SpeTpoolDo` behind the test of the list, which was empty or not, or
-- with a thread that was taken; in the loop of `SpeTpoolDeinit`; behind it.
pub data User : Type 0 where
  outside : User
  found missed : ℕ → User
  holds : ℕ → ℕ → User
  stops : ℕ → User
  released : User

-- `spe_tpool_t`, with the number of threads in `threadRoutineOnce`, and the numbers of jobs that were
-- accepted and that ended.
pub record Pool : Type 0 where
  pub thread_num : ℕ
  pub thread_run : ℕ
  pub free_list : List ℕ
  pub threads : ℕ → Thread
  pub user : User
  pub once : ℕ
  pub accepted : ℕ
  pub ended : ℕ

abbrev pub update : (ℕ → Thread) → ℕ → Thread → ℕ → Thread
update t i x j = if j == i then x else t j

-- What a step of a thread does outside the thread.
pub data Effect : Type 0 where
  inside job_done freed left : Effect

-- A step of `threadRoutine`.
pub data ThreadStep (t : Thread) : Thread → Effect → Type 0 where
  start :
      {h : ℕ}
      → t.place ≡ waits
      → t.handler ≡ some h
      → t.stop ≡ false
      → ThreadStep t (record t { place = works }) inside
  stopped : t.place ≡ waits → t.stop ≡ true → ThreadStep t (record t { place = quits }) inside
  finish : t.place ≡ works → ThreadStep t (record t { handler = none; place = returns }) job_done
  enlist : t.place ≡ returns → ThreadStep t (record t { place = waits }) freed
  quit : t.place ≡ quits → ThreadStep t (record t { place = gone }) left

unfoldable pub apply : Effect → ℕ → Pool → Pool
apply inside i s = s
apply job_done i s = record s { ended = s.ended + 1 }
apply freed i s = record s { free_list = s.free_list ++ (i ∷ []) }
apply left i s = record s { thread_run = s.thread_run - 1 }

pub data Step (s : Pool) : Pool → Type 0 where
  -- `threadRoutine`
  thread_step :
      (i : ℕ) {t : Thread} {e : Effect}
      → i < s.thread_num
      → ThreadStep (s.threads i) t e
      → Step s (apply e i (record s { threads = update s.threads i t }))
  -- `threadRoutineOnce`
  once_ends :
      0 < s.once
      → Step s (record s { once = s.once - 1; ended = s.ended + 1; thread_run = s.thread_run - 1 })
  -- `SpeTpoolDo`: !list_empty(&gTpool->freeList)
  finds :
      (h i : ℕ) (rest : List ℕ)
      → s.user ≡ outside
      → s.free_list ≡ i ∷ rest
      → Step s (record s { user = found h })
  misses : (h : ℕ) → s.user ≡ outside → s.free_list ≡ [] → Step s (record s { user = missed h })
  -- The first thread is taken off the list, under its lock.
  takes :
      {h i : ℕ} {rest : List ℕ}
      → s.user ≡ found h
      → s.free_list ≡ i ∷ rest
      → Step s (record s { user = holds h i; free_list = rest })
  gives :
      {h i : ℕ}
      → s.user ≡ holds h i
      → Step s (record s {
        user = outside;
        accepted = s.accepted + 1;
        threads = update s.threads i (record (s.threads i) { handler = some h });
      })
  -- A thread for this job only, or calloc fails and the job is refused.
  spawns :
      {h : ℕ}
      → s.user ≡ missed h
      → Step s (record s {
        user = outside;
        accepted = s.accepted + 1;
        once = s.once + 1;
        thread_run = s.thread_run + 1;
      })
  refuses : {h : ℕ} → s.user ≡ missed h → Step s (record s { user = outside })
  -- `SpeTpoolDeinit`
  begins : s.user ≡ outside → Step s (record s { user = stops 0 })
  stops_one :
      {k : ℕ}
      → s.user ≡ stops k
      → k < s.thread_num
      → Step s (record s {
        user = stops (suc k);
        threads = update s.threads k (record (s.threads k) { stop = true });
      })
  -- The loop that is to wait for the threads tests `sleep_cnt > 10` with 0, and does not run.
  releases : {k : ℕ} → s.user ≡ stops k → k ≡ s.thread_num → Step s (record s { user = released })

abbrev pub new_thread : Thread
new_thread = record { handler = none; stop = false; place = waits }

-- The loop of `SpeTpoolInit` from thread `i` on, for `n` more.
unfoldable pub enable_from : ℕ → ℕ → Pool → Pool
enable_from zero i s = s
enable_from (suc n) i s = enable_from n (suc i) (record s {
  free_list = s.free_list ++ (i ∷ []);
  threads = update s.threads i new_thread;
  thread_run = s.thread_run + 1;
})

unfoldable pub number_of_threads : ℕ → ℕ
number_of_threads cpus = if ltb max_thread (cpus * 2) then max_thread else cpus * 2

-- The block of the pool, which calloc has cleared, with `thread_num` set.
abbrev pub cleared : ℕ → Pool
cleared n = record {
  thread_num = n;
  thread_run = 0;
  free_list = [];
  threads = λ i. new_thread;
  user = outside;
  once = 0;
  accepted = 0;
  ended = 0;
}

-- `SpeTpoolInit` when there is no pool yet and calloc succeeds.
unfoldable pub pool_init : ℕ → Pool
unfolding enable_from number_of_threads
pool_init cpus = enable_from (number_of_threads cpus) 0 (cleared (number_of_threads cpus))

-- The states that come behind `SpeTpoolInit`.
pub data Reach (cpus : ℕ) : Pool → Type 0 where
  begin : Reach cpus (pool_init cpus)
  later : {s t : Pool} → Reach cpus s → Step s t → Reach cpus t
