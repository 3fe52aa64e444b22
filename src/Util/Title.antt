-- ===== src/Util/Title.antt =====
-- src/spe_util.c, `spe_init_proc_title` and `spe_set_proc_title`: the title is written over the
-- arguments and over the strings of the environment that follow them, which are moved away first.
pub mod Ranges
pub mod Safe
use spe.Base.{
  ℕ, ◌+◌, ◌-◌, Bool, Option, none, some, List, [], ◌∷◌, ◌++◌, ◌==◌, if◌then◌else◌, length, take,
  replicate,
}

-- A C string in memory.
pub record Str : Type 0 where
  pub addr : ℕ
  pub text : List ℕ

-- With its terminator.
abbrev pub size : Str → ℕ
size s = length s.text + 1

-- The loop over `argv`: how far the strings follow one another.
unfoldable pub walk : ℕ → List Str → ℕ
walk last [] = last
walk last (s ∷ ss) = walk (if last == s.addr then s.addr + size s else last) ss

-- The loop over `environ`: a string that follows is copied to `p`. The result is `spe_argv_last` and
-- the environment.
unfoldable pub move : ℕ → ℕ → List Str → ℕ × List Str
move last p [] = (last, [])
move last p (e ∷ es) =
    let moved : ℕ × List Str = move (last + size e) (p + size e) es in
    let rest : ℕ × List Str = move last p es in
    if last == e.addr then (moved.0, record e { addr = p } ∷ moved.1) else (rest.0, e ∷ rest.1)

-- What is asked of calloc.
unfoldable pub env_size : List Str → ℕ
env_size [] = 0
env_size (e ∷ es) = size e + env_size es

-- `spe_argv[0]`, `spe_argv_last` and the environment.
pub record Title : Type 0 where
  pub first : ℕ
  pub last : ℕ
  pub env : List Str

-- `spe_init_proc_title`, with `arg` and `args` for `argv`, by what calloc gives.
unfoldable pub init_proc_title : Option ℕ → Str → List Str → List Str → Option Title
unfolding walk move
init_proc_title none arg args env = none
init_proc_title (some p) arg args env =
    let m : ℕ × List Str = move (walk arg.addr (arg ∷ args)) p env in
    some (record { first = arg.addr; last = m.0 - 1; env = m.1 })

-- `spe_set_proc_title`: strncpy fills the bytes from `spe_argv[0]` to `spe_argv_last`.
unfoldable pub set_proc_title : List ℕ → Title → ℕ × List ℕ
set_proc_title title t =
    let n : ℕ = t.last - t.first in (t.first, take n title ++ replicate (n - length title) 0)
