-- ===== src/Module.antt =====
-- src/spe_module.h and the parts of `spe_worker_process` (src/spe_worker.c) that go over the modules:
-- in which order their hooks run. The result is the list of the positions of the modules called.
pub mod Order
use spe.Base.{
  ℕ, zero, suc, ◌+◌, Bool, true, false, Option, none, some, List, [], ◌∷◌, ◌++◌, if◌then◌else◌,
  ◌==◌, ◌&&◌, ◌>>=◌, length, get_elem?,
}

-- SPE_CORE_MODULE and SPE_USER_MODULE
abbrev pub core_module : ℕ
core_module = 1

abbrev pub user_module : ℕ
user_module = 2

-- `spe_module_t`: whether each hook is set
pub record Module : Type 0 where
  pub module_type : ℕ
  pub init_master : Bool
  pub init_worker : Bool
  pub exit_worker : Bool
  pub exit_master : Bool

-- The body of each loop: the module at position `i`, for modules of one type, by one hook.
abbrev pub pick : (Module → Bool) → ℕ → ℕ → Module → List ℕ
pick has kind i m = if m.module_type == kind && has m then i ∷ [] else []

-- for (int i = 0; i < spe_module_num; i++), from position `i` on
unfoldable pub upward : (Module → Bool) → ℕ → ℕ → List Module → List ℕ
upward has kind i [] = []
upward has kind i (m ∷ ms) = pick has kind i m ++ upward has kind (suc i) ms

-- for (int i = spe_module_num - 1; i >= 0; i--), with `n` rounds left; `none` is an access outside
-- the array.
unfoldable pub downward : (Module → Bool) → ℕ → List Module → ℕ → Option (List ℕ)
downward has kind ms zero = some []
downward has kind ms (suc n) = do
  m ← get_elem? ms n
  rest ← downward has kind ms n
  some (pick has kind n m ++ rest)

-- The two loops of `spe_worker_process` before its event loop
unfoldable pub init_hooks : (Module → Bool) → List Module → List ℕ
unfolding upward
init_hooks has ms = upward has core_module 0 ms ++ upward has user_module 0 ms

-- and the two after it
unfoldable pub exit_hooks : (Module → Bool) → List Module → Option (List ℕ)
unfolding downward
exit_hooks has ms = do
  users ← downward has user_module ms (length ms)
  cores ← downward has core_module ms (length ms)
  some (users ++ cores)
