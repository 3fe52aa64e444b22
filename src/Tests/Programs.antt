-- ===== src/Tests/Programs.antt =====
-- spe.c at concrete inputs.
use spe.Base.{ℕ, ◌+◌, ◌≤◌, ◌<◌, ◌≡◌, refl, ◌⊎◌, true, false, List, [], ◌∷◌, All}
use spe.Base.Ints.{pos}
use spe.Module.{core_module}
use spe.Worker.{Master, max_worker, in_master, master_side, fork_error, ForkAnswer}
use spe.Main.{Cycle, Start, fork_all, default_pidfile}
use spe.Main.Live.{live, IsForked, fork_all-live}

abbrev no_workers : Master
no_workers = record { pid = λ i. 0; notify_fd = λ i. 0; stopped = []; closed = [] }

-- Two workers, 700 and 701.
abbrev two_forks : List ForkAnswer
two_forks = in_master 10 11 700 ∷ in_master 12 13 701 ∷ []

two_forks-IsForked : All IsForked two_forks
two_forks-IsForked = ((10, 11, 700, refl, refl), ((12, 13, 701, refl, refl), tt))

fork_all-live_example :
    ((live no_workers + 2 ≤ max_worker)
      × ((fork_all master_side two_forks no_workers).0 ≡ master_side)
      × (live (fork_all master_side two_forks no_workers).1 ≡ live no_workers + 2))
    ⊎ ((max_worker < live no_workers + 2)
        × ((fork_all master_side two_forks no_workers).0 ≡ fork_error)
        × (live (fork_all master_side two_forks no_workers).1 ≡ max_worker))
fork_all-live_example = fork_all-live two_forks no_workers two_forks-IsForked

-- Worker 700 ends, and another process that the table does not know.
abbrev two_running : Master
two_running = (fork_all master_side two_forks no_workers).1

abbrev two_ended : List (ℕ × ForkAnswer)
two_ended = (700, in_master 14 15 702) ∷ (900, in_master 16 17 703) ∷ []

-- The program without a configuration file.
abbrev plain_start : Start
plain_start = record {
  argc = 1;
  config = (false, []);
  modules =
      record {
        module_type = core_module;
        init_master = true;
        init_worker = true;
        exit_worker = true;
        exit_master = true;
      }
      ∷ [];
  max_open_files = λ n. true;
  daemonize = false;
  init_master = λ i. true;
}

abbrev plain_cycle : Cycle
plain_cycle = record {
  daemon = pos 0;
  procs = pos 1;
  maxfd = pos 1000000;
  pidfile = default_pidfile;
}
