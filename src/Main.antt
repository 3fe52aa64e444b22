-- ===== src/Main.antt =====
-- src/spe.c, src/spe_cycle.c, and `spe_module_init` of src/spe_module.c: the start of the program, and
-- the master process, which starts the workers and replaces those that end.
pub mod Live
pub mod Ready
pub mod Signals
pub mod Stops
use spe.Base.{
  ℕ, zero, suc, ◌+◌, Bool, true, false, not, Option, none, some, List, [], ◌∷◌, ◌++◌, ltb, length,
  if◌then◌else◌, ◌>>=◌, ◌==◌, ◌&&◌, ◌⊎◌, inl, inr,
}
use spe.Base.Ints.{ℤ, pos, negsuc, is_not_positive}
use spe.Module.{Module, core_module, user_module, upward, downward}
use spe.Opt.{Opt, opt_int, opt_string, global_section}
use spe.Worker.{
  Master, ForkAnswer, ForkCode, fork_error, worker_side, master_side, fork, reset, stop,
}

-- `spe_cycle_t`, without the contexts of the modules
pub record Cycle : Type 0 where
  pub daemon : ℤ
  pub procs : ℤ
  pub maxfd : ℤ
  pub pidfile : List ℕ

-- "daemon", "procs", "maxfd", "pidfile", "/tmp/spe.pid"
abbrev pub key_daemon : List ℕ
key_daemon = 100 ∷ 97 ∷ 101 ∷ 109 ∷ 111 ∷ 110 ∷ []

abbrev pub key_procs : List ℕ
key_procs = 112 ∷ 114 ∷ 111 ∷ 99 ∷ 115 ∷ []

abbrev pub key_maxfd : List ℕ
key_maxfd = 109 ∷ 97 ∷ 120 ∷ 102 ∷ 100 ∷ []

abbrev pub key_pidfile : List ℕ
key_pidfile = 112 ∷ 105 ∷ 100 ∷ 102 ∷ 105 ∷ 108 ∷ 101 ∷ []

abbrev pub default_pidfile : List ℕ
default_pidfile = 47 ∷ 116 ∷ 109 ∷ 112 ∷ 47 ∷ 115 ∷ 112 ∷ 101 ∷ 46 ∷ 112 ∷ 105 ∷ 100 ∷ []

-- `spe_cycle_init`: `none` inside is false; the outer one, a number that atoi is not defined for.
unfoldable pub cycle_init : List Opt → Option (Option Cycle)
cycle_init options = opt_int options (some global_section) (some key_daemon) (pos 0) >>= λ d.
    opt_int options (some global_section) (some key_procs) (pos 1) >>= λ p.
    if is_not_positive p
    then some none
    else (opt_int options (some global_section) (some key_maxfd) (pos 1000000) >>= λ m.
        if is_not_positive m
        then some none
        else (opt_string options (some global_section) (some key_pidfile) default_pidfile >>= λ f.
            some (some (record { daemon = d; procs = p; maxfd = m; pidfile = f }))))

-- SPE_MODULE_MAX
abbrev pub module_max : ℕ
module_max = 128

-- `spe_module_init` from position `i` on, over an array with `n` more modules; the number of modules,
-- or `none` for false.
unfoldable pub module_init : ℕ → ℕ → Option ℕ
module_init zero i = some i
module_init (suc n) i =
    let rest : Option ℕ = module_init n (suc i) in if ltb module_max i then none else rest

-- for (int i=0; i<cycle.procs; i++) { res = spe_worker_fork(); if (res <= 0) break; }, with the answers to
-- each fork; `res` is the result of the one before.
unfoldable pub fork_on : (Master → ForkCode × Master) → ForkCode × Master → ForkCode × Master
fork_on again (master_side, m) = again m
fork_on again (fork_error, m) = (fork_error, m)
fork_on again (worker_side, m) = (worker_side, m)

unfoldable pub fork_all : ForkCode → List ForkAnswer → Master → ForkCode × Master
unfolding fork_on
fork_all res [] m = (res, m)
fork_all res (a ∷ answers) m = fork_on (λ m'. fork_all master_side answers m') (fork m a)

-- What waitpid gives: no worker has ended, an error, or the pid of one, with the answer to the fork
-- that follows.
pub data Wait : Type 0 where
  none_ended wait_error : Wait
  ended : ℕ → ForkAnswer → Wait

-- The fork that replaces a worker: in the new worker, the loop is left (true).
unfoldable pub on_refork :
    (Master → Option (Bool × Master)) → ForkCode × Master → Option (Bool × Master)
on_refork again (worker_side, m) = some (true, m)
on_refork again (fork_error, m) = again m
on_refork again (master_side, m) = again m

unfoldable pub on_reset :
    (Master → Option (Bool × Master)) → ForkAnswer → Bool × Master → Option (Bool × Master)
unfolding on_refork
on_reset again a (false, m) = again m
on_reset again a (true, m) = on_refork again (fork m a)

-- The loop of waitpid in `spe_master_process`; true: this is a new worker. At the end of the list the
-- loop still runs.
unfoldable pub reap : List Wait → Master → Option (Bool × Master)
unfolding on_reset
reap [] m = none
reap (none_ended ∷ ws) m = some (false, m)
reap (wait_error ∷ ws) m = some (false, m)
reap (ended p a ∷ ws) m = on_reset (λ m'. reap ws m') a (reset m p)

-- A turn of the loop of `spe_master_process`: which flags the signals have set.
pub record Wake : Type 0 where
  pub reap_worker : Bool
  pub stop_worker : Bool
  pub waits : List Wait

-- How the master process ends: it runs on, it has stopped its workers, or it is a worker now.
pub data MasterEnd : Type 0 where
  runs_on has_stopped is_worker : Master → MasterEnd

unfoldable pub stop_test : (Master → Option MasterEnd) → Bool → Bool × Master → Option MasterEnd
stop_test again stopping (true, m) = some (is_worker m)
stop_test again stopping (false, m) =
    let rest : Option MasterEnd = again m in if stopping then some (has_stopped (stop m)) else rest

-- The loop of `spe_master_process`.
unfoldable pub master_process : List Wake → Master → Option MasterEnd
unfolding reap stop_test
master_process [] m = some (runs_on m)
master_process (k ∷ ks) m =
    (if k.reap_worker then reap k.waits m else some (false, m))
    >>= stop_test (λ m'. master_process ks m') k.stop_worker

-- A part of the start of `main` that can fail; each failure returns 1.
pub data Failure : Type 0 where
  usage bad_config too_many_modules bad_cycle no_files no_daemon core_failed user_failed : Failure

-- What `main` finds: the number of arguments, and whether `spe_opt_create` and then each call succeed.
pub record Start : Type 0 where
  pub argc : ℕ
  pub config : Bool × List Opt
  pub modules : List Module
  pub max_open_files : ℤ → Bool
  pub daemonize : Bool
  pub init_master : ℕ → Bool

-- The hooks of the modules at the positions given, until one fails.
unfoldable pub run_hooks : (ℕ → Bool) → List ℕ → Bool
run_hooks ok [] = true
run_hooks ok (i ∷ is) = if ok i then run_hooks ok is else false

-- cycle.daemon && spe_daemon ()
abbrev pub is_zero : ℤ → Bool
is_zero (pos n) = n == 0
is_zero (negsuc n) = false

abbrev pub has_init : Module → Bool
has_init m = m.init_master

abbrev pub has_exit : Module → Bool
has_exit m = m.exit_master

-- From the limit of files to the modules.
unfoldable pub start_modules : Start → Cycle → Failure ⊎ Cycle
unfolding run_hooks
start_modules s c =
    if not (s.max_open_files c.maxfd)
    then inl no_files
    else if not (is_zero c.daemon) && not s.daemonize
    then inl no_daemon
    else if not (run_hooks s.init_master (upward has_init core_module 0 s.modules))
    then inl core_failed
    else if not (run_hooks s.init_master (upward has_init user_module 0 s.modules))
    then inl user_failed
    else inr c

unfoldable pub start_cycle : Start → Option Cycle → Failure ⊎ Cycle
unfolding start_modules
start_cycle s none = inl bad_cycle
start_cycle s (some c) = start_modules s c

-- By the result of `spe_module_init`.
unfoldable pub start_counted : Start → Option ℕ → Option (Failure ⊎ Cycle)
unfolding cycle_init start_cycle
start_counted s none = some (inl too_many_modules)
start_counted s (some n) =
    cycle_init (if s.argc == 2 then s.config.1 else []) >>= λ c. some (start_cycle s c)

-- `main` up to the forks: why it returns 1, or the cycle.
unfoldable pub start_up : Start → Option (Failure ⊎ Cycle)
unfolding module_init start_counted
start_up s =
    if ltb 2 s.argc
    then some (inl usage)
    else if s.argc == 2 && not s.config.0
    then some (inl bad_config)
    else start_counted s (module_init (length s.modules) 0)

-- Which process goes on behind the forks, if any.
pub data Role : Type 0 where
  worker_role master_role no_role : Role

unfoldable pub role_of : ForkCode → Role
role_of worker_side = worker_role
role_of master_side = master_role
role_of fork_error = no_role

-- The end of `main`: the exit hooks, from the last module to the first, users before core.
unfoldable pub exit_modules : List Module → Option (List ℕ)
exit_modules ms = do
  users ← downward has_exit user_module ms (length ms)
  cores ← downward has_exit core_module ms (length ms)
  some (users ++ cores)
