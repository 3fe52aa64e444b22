-- ===== src/Worker.antt =====
-- src/spe_worker.c: the table of worker processes that the master keeps, and the command that ends
-- a worker. What socketpair and fork answer is an argument; what is written to the channels and
-- closed is kept as lists, in order.
pub mod Slots
pub mod Stop
pub mod Turn
pub mod Process
use spe.Base.{
  ℕ, zero, suc, ◌+◌, Bool, true, false, Option, none, some, List, [], ◌∷◌, ◌++◌, if◌then◌else◌,
  ◌==◌,
}

-- SPE_MAX_WORKER
abbrev pub max_worker : ℕ
max_worker = 128

-- `spe_workers`, by slot, the descriptors that got WORKER_STOP, and those that were closed.
pub record Master : Type 0 where
  pub pid : ℕ → ℕ
  pub notify_fd : ℕ → ℕ
  pub stopped : List ℕ
  pub closed : List ℕ

-- socketpair fails; fork fails; in the worker; in the master with the pid of the worker. The
-- numbers are the two ends of the channel.
pub data ForkAnswer : Type 0 where
  no_channel : ForkAnswer
  no_fork in_worker : ℕ → ℕ → ForkAnswer
  in_master : ℕ → ℕ → ℕ → ForkAnswer

-- What `spe_worker_fork` returns: -1, 0 or 1.
pub data ForkCode : Type 0 where
  fork_error worker_side master_side : ForkCode

abbrev pub put_at : (ℕ → ℕ) → ℕ → ℕ → ℕ → ℕ
put_at f i v j = if j == i then v else f j

-- `for (i...) if (spe_workers[i].pid == p) return i;` from slot `i` on, with `n` slots left
pub slot_of : (ℕ → ℕ) → ℕ → ℕ → ℕ → Option ℕ
slot_of t p zero i = none
slot_of t p (suc n) i = if t i == p then some i else slot_of t p n (suc i)

unfoldable pub get_slot : Master → Option ℕ
unfolding slot_of
get_slot m = slot_of m.pid 0 max_worker 0

-- `close`
abbrev pub close_fd : Master → ℕ → Master
close_fd m fd = record m { closed = m.closed ++ (fd ∷ []) }

unfoldable pub fork_in : Master → ℕ → ForkAnswer → ForkCode × Master
fork_in m slot no_channel = (fork_error, m)
fork_in m slot (no_fork a b) = (fork_error, m)
fork_in m slot (in_worker a b) = (worker_side, close_fd m a)
fork_in m slot (in_master a b p) = (
  master_side,
  close_fd (record m { pid = put_at m.pid slot p; notify_fd = put_at m.notify_fd slot a }) b,
)

-- `spe_worker_fork`; without a slot nothing is asked of the kernel.
unfoldable pub fork_slot : Master → Option ℕ → ForkAnswer → ForkCode × Master
unfolding fork_in
fork_slot m none a = (fork_error, m)
fork_slot m (some slot) a = fork_in m slot a

unfoldable pub fork : Master → ForkAnswer → ForkCode × Master
unfolding fork_slot get_slot
fork m a = fork_slot m (get_slot m) a

unfoldable pub reset_slot : Master → Option ℕ → Bool × Master
reset_slot m none = (false, m)
reset_slot m (some i) = (true, close_fd (record m { pid = put_at m.pid i 0 }) (m.notify_fd i))

-- `spe_worker_reset`; true is 0, false is -1.
unfoldable pub reset : Master → ℕ → Bool × Master
unfolding reset_slot slot_of
reset m p = reset_slot m (slot_of m.pid p max_worker 0)

-- The body of the loop of `spe_worker_stop`.
pub stop_one : Master → ℕ → Master
stop_one m i = if m.pid i == 0 then m else record m {
  pid = put_at m.pid i 0;
  stopped = m.stopped ++ (m.notify_fd i ∷ []);
  closed = m.closed ++ (m.notify_fd i ∷ []);
}

pub stop_from : ℕ → ℕ → Master → Master
unfolding stop_one
stop_from zero i m = m
stop_from (suc n) i m = stop_from n (suc i) (stop_one m i)

-- `spe_worker_stop`
unfoldable pub stop : Master → Master
unfolding stop_from
stop m = stop_from max_worker 0 m

-- What read gives on the control channel: an error, the end, or a command.
pub data Control : Type 0 where
  control_failed control_end : Control
  command : ℕ → Control

-- `worker_control_handler`, on `worker_stop`; WORKER_STOP is 1.
pub control_handler : Control → Bool → Bool
control_handler control_failed stopping = stopping
control_handler control_end stopping = true
control_handler (command c) stopping = if c == 1 then true else stopping
