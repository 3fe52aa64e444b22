-- ===== src/Main/Ready.antt =====
-- src/spe.c and src/spe_cycle.c: what holds when `main` comes to its forks.
use spe.Base.{suc, ◌≤◌, ◌≡◌, ◌⊎◌, inl, inr, true, false, Option, none, some, length}
use spe.Base.Ints.{is_not_positive}
use spe.Opt.{Opt}
use spe.Module.{core_module, user_module, upward}
use spe.Main.{Cycle, module_max, Failure, Start, run_hooks, has_init}

-- At least one worker, and at least one descriptor.
abbrev pub IsPositive : Cycle → Type 0
IsPositive c = (is_not_positive c.procs ≡ false) × (is_not_positive c.maxfd ≡ false)

abbrev CycleIf : Option Cycle → Type 0
CycleIf none = Unit
CycleIf (some c) = IsPositive c

-- `main` has come to the forks with `c`.
abbrev pub IsReady : Start → Cycle → Type 0
IsReady s c =
    IsPositive c
    × (length s.modules ≤ suc module_max)
    × (run_hooks s.init_master (upward has_init core_module 0 s.modules) ≡ true)
    × (run_hooks s.init_master (upward has_init user_module 0 s.modules) ≡ true)

abbrev ReadyIf : Start → Failure ⊎ Cycle → Type 0
ReadyIf s (inl f) = Unit
ReadyIf s (inr c) = IsReady s c
