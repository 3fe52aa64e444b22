-- ===== src/Signal/Arrive.antt =====
-- spe_signal.c: a signal that arrives is in the queue once, until it is handled.
use spe.Base.{ℕ, zero, suc, ◌≤◌, ◌≡◌, Option, some, List, [], ◌∷◌, ◌>>=◌}
use spe.Task.Timers.{count}
use spe.Signal.{Signals, max_signal, common_handler}

abbrev pub once_if : ℕ → ℕ
once_if zero = 0
once_if (suc n) = 1

-- The signals that are counted are those in the queue, which holds each once and only numbers of
-- signals; no counter is above `n`.
pub record Inv (s : Signals) (n : ℕ) : Type 0 where
  pub queued_once : (i : ℕ) → count i s.queue ≡ once_if (s.state i).cnt
  pub in_range : (i : ℕ) → max_signal ≤ i → (s.state i).cnt ≡ 0
  pub few : (i : ℕ) → (s.state i).cnt ≤ n

-- Signals that arrive one after the other.
unfoldable pub arrive_all : Signals → List ℕ → Option Signals
unfolding common_handler
arrive_all s [] = some s
arrive_all s (sig ∷ sigs) = common_handler s sig >>= λ s'. arrive_all s' sigs
