-- ===== src/Worker/Process.antt =====
-- src/spe_worker.c, `spe_worker_process` as a whole: the signals, the hooks of the modules, the control
-- task and the event loop. The calls are the interface `Around`, over a state `W`.
use spe.Base.{
  ℕ, ◌≡◌, refl, Bool, true, false, Option, none, some, List, [], ◌∷◌, if◌then◌else◌, ◌>>=◌,
}
use spe.Main.Signals.{sigpipe, sighup, sigchld, sigusr1}
use spe.Module.{Module, init_hooks, exit_hooks}
use spe.Module.Order.{rev, exit_hooks-rev}
use spe.Worker.Turn.{Events, first_timeout, turns}

-- spe_signal_register (sig, SIG_IGN), the two hooks of the module at a position, the two calls of
-- spe_epoll.c on `control_fd`, and its close.
pub record Around (W : Type 0) : Type 0 where
  pub events : Events W
  pub ignore : ℕ → W → W
  pub init_worker : ℕ → W → W
  pub exit_worker : ℕ → W → W
  pub enable_control : W → W
  pub disable_control : W → W
  pub close_control : W → W

-- One call after the other.
unfoldable pub call_each : {W : Type 0} → (ℕ → W → W) → List ℕ → W → W
call_each call [] w = w
call_each call (i ∷ is) w = call_each call is (call i w)

-- The signals that a worker ignores, in order.
abbrev pub ignored_signals : List ℕ
ignored_signals = sigpipe ∷ sighup ∷ sigchld ∷ sigusr1 ∷ []

abbrev pub has_init_worker : Module → Bool
has_init_worker m = m.init_worker

abbrev pub has_exit_worker : Module → Bool
has_exit_worker m = m.exit_worker

module _ {W : Type 0} (around : Around W) where
  -- Up to the event loop.
  unfoldable pub enter : List Module → W → W
  unfolding call_each
  enter ms w = around.enable_control (
      call_each around.init_worker (init_hooks has_init_worker ms)
        (call_each around.ignore ignored_signals w))

  -- Behind the event loop; `none` is an access outside the table of modules.
  unfoldable pub leave : List Module → W → Option W
  unfolding call_each
  leave ms w = exit_hooks has_exit_worker ms >>= λ is.
      some (call_each around.exit_worker is (around.close_control (around.disable_control w)))

  -- `spe_worker_process` with `n` turns at most; `none` inside: the loop still runs.
  unfoldable pub worker_process : ℕ → List Module → W → Option (Option W)
  unfolding enter leave
  worker_process n ms w =
      let looped : W = (turns around.events n first_timeout (enter ms w)).0 in
      if around.events.stopping looped
      then (leave ms looped >>= λ w'. some (some w'))
      else some none

  -- The exit hooks run once each, in the reverse of the order of init hooks.
  abbrev pub Unwinds : ℕ → List Module → W → Bool → Option (Option W) → Type 0
  Unwinds n ms w true r =
      r
      ≡ some (
          some (
            call_each around.exit_worker (rev (init_hooks has_exit_worker ms)) (
              around.close_control
                (around.disable_control (turns around.events n first_timeout (enter ms w)).0))))
  Unwinds n ms w false r = r ≡ some none

  by_stop :
      (n : ℕ) (ms : List Module) (w : W) (b : Bool)
      → Unwinds n ms w b (
          if b
          then (leave ms (turns around.events n first_timeout (enter ms w)).0 >>= λ w'.
              some (some w'))
          else some none)
  unfolding leave
  by_stop n ms w true = rw (exit_hooks-rev has_exit_worker ms, ◌>>=◌) refl
  by_stop n ms w false = refl

  -- Whatever the calls do: when the turns leave `worker_stop` set, a worker stops watching its control channel, closes it, and calls the exit hooks of its modules
  -- in the reverse of the order in which init hooks of the same modules run, without an access outside the table; else it is still in its loop.
  pub worker_process-Unwinds :
      (n : ℕ) (ms : List Module) (w : W)
      → Unwinds n ms w
          (around.events.stopping (turns around.events n first_timeout (enter ms w)).0)
          (worker_process n ms w)
  unfolding worker_process
  worker_process-Unwinds n ms w =
      by_stop n ms w (around.events.stopping (turns around.events n first_timeout (enter ms w)).0)
