-- ===== src/Main/Stops.antt =====
-- src/spe.c, `spe_master_process`: when it stops.
use spe.Base.{ℕ, ◌≡◌, Bool, true, false, ◌||◌, List, [], ◌∷◌, ◌==◌}
use spe.Worker.{max_worker}
use spe.Worker.Stop.{running}
use spe.Main.{Wait, none_ended, wait_error, ended, MasterEnd, runs_on, has_stopped, is_worker}
use spe.Main.Signals.{sigterm, sigint, sigusr1, MasterRound}

-- A signal that stops the master.
pub stops_master : ℕ → Bool
stops_master sig = sig == sigterm || (sig == sigint || sig == sigusr1)

pub any_stops : List ℕ → Bool
any_stops [] = false
any_stops (sig ∷ sigs) = stops_master sig || any_stops sigs

pub any_round_stops : List MasterRound → Bool
any_round_stops [] = false
any_round_stops (r ∷ rs) = any_stops r.signals || any_round_stops rs

-- The answers of waitpid come to an end.
abbrev pub Closes : List Wait → Type 0
Closes [] = ⊥
Closes (none_ended ∷ ws) = Unit
Closes (wait_error ∷ ws) = Unit
Closes (ended p a ∷ ws) = Closes ws

-- How the master ends, by the signals that came.
abbrev pub Ended : Bool → MasterEnd → Type 0
Ended asked (runs_on m) = asked ≡ false
Ended asked (has_stopped m) = (asked ≡ true) × (running m.pid m.notify_fd max_worker 0 ≡ [])
Ended asked (is_worker m) = Unit

Ended-or : (a b : Bool) (e : MasterEnd) → a ≡ false → Ended b e → Ended (a || b) e
Ended-or a b e h k = rw h k
