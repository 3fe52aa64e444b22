-- ===== src/Main/Signals.antt =====
-- src/spe.c, `spe_master_process` with its signals: the handlers that it registers, the two flags that
-- they set, and the turns of its loop.
use spe.Base.{ℕ, Bool, true, false, Option, some, List, [], ◌∷◌, ◌==◌, if◌then◌else◌, ◌>>=◌}
use spe.Worker.{Master}
use spe.Main.{Wait, reap, MasterEnd, runs_on, stop_test}

-- SIGHUP, SIGINT, SIGUSR1, SIGPIPE, SIGTERM and SIGCHLD of Linux
abbrev pub sighup : ℕ
sighup = 1

abbrev pub sigint : ℕ
sigint = 2

abbrev pub sigusr1 : ℕ
sigusr1 = 10

abbrev pub sigpipe : ℕ
sigpipe = 13

abbrev pub sigterm : ℕ
sigterm = 15

abbrev pub sigchld : ℕ
sigchld = 17

-- SIG_IGN, or the handler
pub data SignalAction : Type 0 where
  ignored reap_worker stop_worker : SignalAction

-- The calls of `spe_signal_register`, in order.
abbrev pub master_signals : List (ℕ × SignalAction)
master_signals =
    (sigpipe, ignored)
    ∷ (sighup, ignored)
    ∷ (sigchld, reap_worker)
    ∷ (sigterm, stop_worker)
    ∷ (sigint, stop_worker)
    ∷ (sigusr1, stop_worker)
    ∷ []

-- What is master_signals last counts; each signal is master_signals once.
unfoldable pub action_of : List (ℕ × SignalAction) → ℕ → SignalAction
action_of [] sig = ignored
action_of ((k, a) ∷ rs) sig = if k == sig then a else action_of rs sig

-- `spe_reap_worker` and `spe_stop_worker`
pub record Flags : Type 0 where
  pub reaping : Bool
  pub stopping : Bool

unfoldable pub handle : SignalAction → Flags → Flags
handle ignored f = f
handle reap_worker f = record f { reaping = true }
handle stop_worker f = record f { stopping = true }

-- `spe_signal_process` calls the handler of each signal in its queue.
unfoldable pub process_all : List ℕ → Flags → Flags
unfolding action_of handle
process_all [] f = f
process_all (sig ∷ sigs) f = process_all sigs (handle (action_of master_signals sig) f)

-- A turn: the signals in the queue, and what waitpid answers.
pub record MasterRound : Type 0 where
  pub signals : List ℕ
  pub waits : List Wait

-- if (spe_reap_worker) { ... spe_reap_worker = 0; }
unfoldable pub reap_if : Flags → List Wait → Master → Option (Bool × Master)
unfolding reap
reap_if f ws m = if f.reaping then reap ws m else some (false, m)

unfoldable pub rounds : List MasterRound → Flags → Master → Option MasterEnd
unfolding process_all reap_if stop_test
rounds [] f m = some (runs_on m)
rounds (r ∷ rs) f m =
    let f' : Flags = process_all r.signals f in
    reap_if f' r.waits m
    >>= stop_test (λ m'. rounds rs (record f' { reaping = false }) m') f'.stopping

-- The static variables start as 0.
unfoldable pub master_rounds : List MasterRound → Master → Option MasterEnd
unfolding rounds
master_rounds rs m = rounds rs (record { reaping = false; stopping = false }) m
