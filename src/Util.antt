-- ===== src/Util.antt =====
-- src/spe_util.c and src/spe_util.h: the pid file, the way into the background, and the clock. A file
-- is its content, and `none` if it is not there; what the system answers is an argument.
pub mod Pid
pub mod Title
use spe.Base.{
  ℕ, ◌+◌, ◌*◌, ◌/◌, Bool, true, false, not, ◌||◌, ◌&&◌, Option, none, some, List, [], ◌∷◌, ◌++◌,
  ltb, if◌then◌else◌, ◌==◌,
}
use spe.Base.Ints.{ℤ, pos, is_space, is_digit}
use spe.Base.Ints.Decimal.{decimal}
use spe.Base.Ints.Long.{strtol}

-- `spe_save_pid`, by whether the file can be opened and closed, and the pid.
unfoldable pub save_pid : Bool → Bool → ℕ → Option (List ℕ) → Bool × Option (List ℕ)
save_pid opens closes p file =
    if opens then (closes, some (decimal p ++ (10 ∷ []))) else (false, file)

-- Whether fscanf finds a number for "%ld".
unfoldable pub has_digit : List ℕ → Bool
has_digit [] = false
has_digit (c ∷ cs) = is_digit c

unfoldable pub has_number : List ℕ → Bool
unfolding has_digit
has_number [] = false
has_number (c ∷ cs) =
    if is_space c then has_number cs else if c == 45 || c == 43 then has_digit cs else is_digit c

-- `spe_get_pid`: 0 if the file cannot be opened; without a number in it the result is not
-- initialised, which is `none`.
unfoldable pub get_pid : Option (List ℕ) → Option ℤ
unfolding has_number
get_pid none = some (pos 0)
get_pid (some text) = if has_number text then some (strtol text) else none

-- `spe_remove_pid`, by whether unlink succeeds.
unfoldable pub remove_pid : Bool → Option (List ℕ) → Bool × Option (List ℕ)
remove_pid unlinks file = if unlinks then (true, none) else (false, file)

-- `spe_current_time`, in milliseconds, of the seconds and microseconds of gettimeofday.
unfoldable pub current_time : ℕ → ℕ → ℕ
current_time tv_sec tv_usec = tv_sec * 1000 + tv_usec / 1000

-- The answers that `spe_daemon` gets: fork, setsid, chdir, open, the three calls of dup2.
pub data Forked : Type 0 where
  fork_fails child parent : Forked

pub record Calls : Type 0 where
  pub forked : Forked
  pub setsid : Bool
  pub chdir : Bool
  pub null_fd : Option ℕ
  pub dup_in : Bool
  pub dup_out : Bool
  pub dup_err : Bool

-- How `spe_daemon` ends: the parent leaves; -1, with a descriptor that is left open or not; or 0,
-- with a descriptor that is closed or was one of the three.
pub data Daemon : Type 0 where
  exits : Daemon
  fails : Option ℕ → Daemon
  detached : Option ℕ → Daemon

-- Behind open.
unfoldable pub redirect : Calls → ℕ → Daemon
redirect c fd =
    if c.dup_in && (c.dup_out && c.dup_err)
    then detached (if ltb 2 fd then some fd else none)
    else fails (some fd)

unfoldable pub in_child : Calls → Option ℕ → Daemon
unfolding redirect
in_child c none = fails none
in_child c (some fd) = redirect c fd

unfoldable pub by_fork : Calls → Forked → Daemon
unfolding in_child
by_fork c fork_fails = fails none
by_fork c parent = exits
by_fork c child = if c.setsid && c.chdir then in_child c c.null_fd else fails none

unfoldable pub become_daemon : Calls → Daemon
unfolding by_fork
become_daemon c = by_fork c c.forked
