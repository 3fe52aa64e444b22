-- ===== src/Tests/Masters.antt =====
-- The loop of the master, the whole of a worker, and the title, at concrete inputs.
use spe.Base.{ℕ, ◌+◌, true, false, List, [], ◌∷◌, ltb}
use spe.Worker.{Master, in_master}
use spe.Main.{none_ended, ended}
use spe.Main.Signals.{sigchld, sigterm, MasterRound}
use spe.Module.{Module, core_module, user_module}
use spe.Worker.Turn.{first_timeout, turns}
use spe.Worker.Process.{Around, enter, worker_process, Unwinds, worker_process-Unwinds}
use spe.Util.Title.{Str, Title}

abbrev one_worker : Master
one_worker = record { pid = λ i. 0; notify_fd = λ i. 0; stopped = []; closed = [] }

-- A worker that the table does not know has ended; then SIGTERM comes.
abbrev two_rounds : List MasterRound
two_rounds =
    record { signals = sigchld ∷ []; waits = ended 700 (in_master 10 11 701) ∷ none_ended ∷ [] }
    ∷ record { signals = sigterm ∷ []; waits = none_ended ∷ [] }
    ∷ []

-- The calls are counted: a worker stops when 20 were made.
abbrev counting : Around ℕ
counting = record {
  events = record {
    stopping = λ w. ltb 20 w;
    task_empty = λ w. true;
    preloop = λ w. w + 1;
    epoll_process = λ t w. w + 1;
    postloop = λ w. w + 1;
    task_process = λ w. w + 1;
    signal_process = λ w. w + 1;
  };
  ignore = λ sig w. w + 1;
  init_worker = λ i w. w + 1;
  exit_worker = λ i w. w + 1;
  enable_control = λ w. w + 1;
  disable_control = λ w. w + 1;
  close_control = λ w. w + 1;
}

abbrev two_modules : List Module
two_modules =
    record {
      module_type = user_module;
      init_master = true;
      init_worker = true;
      exit_worker = true;
      exit_master = true;
    }
    ∷ record {
      module_type = core_module;
      init_master = true;
      init_worker = true;
      exit_worker = false;
      exit_master = true;
    }
    ∷ []

worker_process-Unwinds_example :
    Unwinds counting 9 two_modules 0
      (counting.events.stopping
        (turns counting.events 9 first_timeout (enter counting two_modules 0)).0)
      (worker_process counting 9 two_modules 0)
worker_process-Unwinds_example = worker_process-Unwinds counting 9 two_modules 0

-- "spe", then "A=1" right behind it, and "B" elsewhere.
abbrev name_arg : Str
name_arg = record { addr = 100; text = 115 ∷ 112 ∷ 101 ∷ [] }

abbrev two_vars : List Str
two_vars =
    record { addr = 104; text = 65 ∷ 61 ∷ 49 ∷ [] } ∷ record { addr = 200; text = 66 ∷ [] } ∷ []
