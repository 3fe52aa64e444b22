-- ===== src/Opt/Config.antt =====
-- src/spe_opt.c, `spe_opt_create`: the configuration file, line by line.
use spe.Base.{
  ℕ, zero, suc, ◌+◌, ◌-◌, Bool, true, false, Option, none, some, List, [], ◌∷◌, drop, set,
  get_elem?, if◌then◌else◌, ◌>>=◌, ◌&&◌, ◌==◌,
}
use spe.Base.System.{ReadAnswer}
use spe.Base.Text.{c_string}
use spe.Buf.{Buf, clean}
use spe.Buf
use spe.Buf.Fd.{ReadCode, count, closed, failed, buf_error}
use spe.Buf.Text.{strim}
use spe.Buf.Split.{Bufs, buf_split}
use spe.Io.{Io, Outcome, waiting, returned, readuntil}
use spe.Opt.{Opt, sec_maxlen, key_maxlen, val_maxlen, strncpy, opt_set, global_section}

-- strncpy (a, s, n); a[n-1] = 0; and the C string in `a` then
unfoldable pub cut_string : List ℕ → ℕ → Option (List ℕ)
cut_string s n = c_string (set (strncpy s n) (n - 1) 0)

-- The C string at `data`, cut to an array of `n` bytes.
unfoldable pub cut_buf : Buf → ℕ → Option (List ℕ)
unfolding cut_string
cut_buf b n = c_string (drop b.off b.mem) >>= λ s. cut_string s n

-- `buf->data[i]`
abbrev pub byte_at : Buf → ℕ → Option ℕ
byte_at b i = get_elem? b.mem (b.off + i)

-- What one line does: the file is refused, or the section and the options afterwards.
pub data LineEnd : Type 0 where
  bad_line : LineEnd
  good_line : List ℕ → List Opt → LineEnd

-- " \r\t\n", " []\t", "=", " "
abbrev pub line_spaces : List ℕ
line_spaces = 32 ∷ 13 ∷ 9 ∷ 10 ∷ []

abbrev pub section_marks : List ℕ
section_marks = 32 ∷ 91 ∷ 93 ∷ 9 ∷ []

abbrev pub equals : List ℕ
equals = 61 ∷ []

abbrev pub space : List ℕ
space = 32 ∷ []

-- A line in brackets.
unfoldable pub section_line : Buf → List Opt → Option LineEnd
unfolding cut_buf
section_line line options = strim line section_marks >>= λ b.
    if b.len == 0
    then some bad_line
    else (cut_buf b sec_maxlen >>= λ sec. some (good_line sec options))

-- while (res > 0)
abbrev pub goes_on : ReadCode → Bool
goes_on (count n) = true
goes_on closed = false
goes_on (failed e) = false
goes_on buf_error = false

-- What `spe_opt_create` returns, with the options then; or the file still has not been read.
pub data ConfigEnd : Type 0 where
  still_reading : ConfigEnd
  config_done : Bool → List Opt → ConfigEnd

module _ (realloc : List ℕ → ℕ → Option (List ℕ)) (grows calloc : ℕ → Bool) where
  -- A key and its value; `set` tells whether the entry is allocated, which the source does not look at.
  unfoldable pub set_pair : Bool → List ℕ → List Opt → Buf → Buf → Option LineEnd
  unfolding cut_buf opt_set
  set_pair entry sec options k v = do
    k' ← strim k space
    key ← cut_buf k' key_maxlen
    v' ← strim v space
    val ← cut_buf v' val_maxlen
    some (good_line sec (opt_set entry options sec key val).1)

  -- The two buffers of a pair, as pointers that are not NULL.
  unfoldable pub set_first_two : Bool → List ℕ → List Opt → List (Option Buf) → Option LineEnd
  unfolding set_pair
  set_first_two entry sec options (some k ∷ some v ∷ rest) = set_pair entry sec options k v
  set_first_two entry sec options (some k ∷ none ∷ rest) = none
  set_first_two entry sec options (some k ∷ []) = none
  set_first_two entry sec options (none ∷ rest) = none
  set_first_two entry sec options [] = none

  unfoldable pub pair_line : Bool → List ℕ → List Opt → Option Bufs → Option LineEnd
  unfolding set_first_two
  pair_line entry sec options none = none
  pair_line entry sec options (some bufs) =
      if bufs.len == 2 then set_first_two entry sec options bufs.elements else some bad_line

  -- A line with something on it: `first` and `last` are its bytes at the ends.
  unfoldable pub full_line : Bool → List ℕ → List Opt → Buf → ℕ → ℕ → Option LineEnd
  unfolding section_line pair_line
  full_line entry sec options line first last =
      if first == 35
      then some (good_line sec options)
      else if first == 91 && last == 93
      then section_line line options
      else (buf_split realloc grows calloc line equals >>= pair_line entry sec options)

  -- The body of the loop behind `spe_io_readuntil`.
  unfoldable pub config_line : Bool → List ℕ → List Opt → Buf → Option LineEnd
  unfolding full_line
  config_line entry sec options read = strim read line_spaces >>= λ line.
      if line.len == 0 then some (good_line sec options) else (do
        first ← byte_at line 0
        last ← byte_at line (line.len - 1)
        full_line entry sec options line first last)

  unfoldable pub after_line :
      (List ℕ → List Opt → Option ConfigEnd) → Bool → List Opt → LineEnd → Option ConfigEnd
  after_line again more options bad_line = some (config_done false options)
  after_line again more options (good_line sec options') =
      let rest : Option ConfigEnd = again sec options' in
      if more then rest else some (config_done true options')

  unfoldable pub after_read :
      (Io → Buf → List (ℕ → ReadAnswer) → List ℕ → List Opt → Option ConfigEnd)
      → Bool
      → List ℕ
      → List Opt
      → Outcome
      → Option ConfigEnd
  unfolding config_line after_line
  after_read again entry sec options waiting = some still_reading
  after_read again entry sec options (returned code io line answers) =
      config_line entry sec options line
      >>= after_line (λ sec' options'. again io line answers sec' options') (goes_on code) options

  -- The loop, for at most `rounds` lines.
  unfoldable pub config_loop :
      ℕ → Bool → Io → Buf → List (ℕ → ReadAnswer) → List ℕ → List Opt → Option ConfigEnd
  unfolding after_read
  config_loop zero entry io line answers sec options = some still_reading
  config_loop (suc rounds) entry io line answers sec options = do
    empty_line ← clean line
    r ← readuntil realloc answers io (10 ∷ []) empty_line
    after_read
        (λ io' line' answers' sec' options'.
          config_loop rounds entry io' line' answers' sec' options')
        entry sec options r

  -- `spe_opt_create` on an open file; `line` tells whether its buffer is allocated.
  unfoldable pub opt_create :
      ℕ → Bool → Bool → Io → List (ℕ → ReadAnswer) → List Opt → Option ConfigEnd
  unfolding config_loop
  opt_create rounds entry false io answers options = some (config_done false options)
  opt_create rounds entry true io answers options =
      config_loop rounds entry io Buf.create answers global_section options
