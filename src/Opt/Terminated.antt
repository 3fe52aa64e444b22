-- ===== src/Opt/Terminated.antt =====
-- src/spe_opt.c: every array that comes from the file has its NUL.
use spe.Base.{ℕ, ◌≡◌, some, List, All}
use spe.Base.Text.{c_string}
use spe.Buf.{Buf}
use spe.Buf
use spe.Io.{Io}
use spe.Opt.{Opt, sec_maxlen}
use spe.Opt.Lookup.{FitsIn}
use spe.Opt.Config.{LineEnd, bad_line, good_line, ConfigEnd, still_reading, config_done}

-- An entry, each array of which has a NUL, so that strcmp and atoi stay inside.
pub record IsTerminated (o : Opt) : Type 0 where
  pub sec : (s : List ℕ) × (c_string o.sec ≡ some s)
  pub key : (s : List ℕ) × (c_string o.key ≡ some s)
  pub val : (s : List ℕ) × (c_string o.val ≡ some s)

-- What a line leaves behind.
abbrev IsGood : LineEnd → Type 0
IsGood bad_line = Unit
IsGood (good_line sec options) = FitsIn sec_maxlen sec × All IsTerminated options

-- The options, if the file has been read.
abbrev pub AllTerminated : ConfigEnd → Type 0
AllTerminated still_reading = Unit
AllTerminated (config_done ok options) = All IsTerminated options
