-- ===== src/Util/Title/Safe.antt =====
-- spe_util.c: the title does not reach into the environment.
use spe.Base.{ℕ, ◌+◌, List, ◌∷◌, length, All}
use spe.Util.Title.{Str, env_size, Title, set_proc_title}
use spe.Util.Title.Ranges.{Clear, Beside, Apart, AllApart}

-- The strings of the arguments and the environment, and the block that calloc gives.
pub record IsLaidOut (p : ℕ) (arg : Str) (args env : List Str) : Type 0 where
  pub env_apart : AllApart env
  pub args_apart : All (λ e. All (Apart e) (arg ∷ args)) env
  pub block_apart : All (Beside p (env_size env)) (arg ∷ args)
  pub block_beside : All (Beside p (env_size env)) env

-- A title that is written: the bytes that are written are none of a string of the environment.
abbrev pub IsOutside : Title → List ℕ → Type 0
IsOutside t title =
    All
      (Clear (set_proc_title title t).0
        ((set_proc_title title t).0 + length (set_proc_title title t).1))
      t.env
