-- ===== src/Opt.antt =====
-- src/spe_opt.c and src/spe_opt.h: the options of the configuration file, in a list. The functions
-- that set and look up; the reading of the file is in Opt.Config.
pub mod Lookup
pub mod Config
pub mod Cut
pub mod Terminated
use spe.Base.{
  ℕ, Bool, true, false, Option, none, some, List, [], ◌∷◌, ◌++◌, take, replicate, if◌then◌else◌,
  ◌>>=◌, ◌&&◌,
}
use spe.Base.Ints.{ℤ, atoi}
use spe.Base.Text.{c_string, str_eq}

abbrev pub sec_maxlen : ℕ
sec_maxlen = 16

abbrev pub key_maxlen : ℕ
key_maxlen = 16

abbrev pub val_maxlen : ℕ
val_maxlen = 128

-- `spe_opt_t`: three arrays.
pub record Opt : Type 0 where
  pub sec : List ℕ
  pub key : List ℕ
  pub val : List ℕ

-- strncpy into an array of `n` bytes: it is filled up with NUL, and has none if `s` is too long.
unfoldable pub strncpy : List ℕ → ℕ → List ℕ
strncpy s n = take n (s ++ replicate n 0)

-- `spe_opt_set`; `calloc` tells whether the entry was allocated.
unfoldable pub opt_set : Bool → List Opt → List ℕ → List ℕ → List ℕ → Bool × List Opt
opt_set false options sec key val = (false, options)
opt_set true options sec key val = (
  true,
  options
      ++ (record {
        sec = strncpy sec sec_maxlen;
        key = strncpy key key_maxlen;
        val = strncpy val val_maxlen;
      }
          ∷ []),
)

-- The test of an entry. `none` is an array without NUL.
unfoldable pub matches : List ℕ → List ℕ → Opt → Option Bool
matches section key o = c_string o.sec >>= λ s.
    if str_eq section s then (c_string o.key >>= λ k. some (str_eq key k)) else some false

-- The loop of the two look-ups: the first entry that matches.
unfoldable pub find_opt : List ℕ → List ℕ → List Opt → Option (Option Opt)
unfolding matches
find_opt section key [] = some none
find_opt section key (o ∷ os) =
    let rest : Option (Option Opt) = find_opt section key os in
    matches section key o >>= λ b. if b then some (some o) else rest

-- "global"
abbrev pub global_section : List ℕ
global_section = 103 ∷ 108 ∷ 111 ∷ 98 ∷ 97 ∷ 108 ∷ []

unfoldable pub section_of : Option (List ℕ) → List ℕ
section_of none = global_section
section_of (some s) = s

unfoldable pub found_string : List ℕ → Option Opt → Option (List ℕ)
found_string def none = some def
found_string def (some o) = c_string o.val

-- `spe_opt_string`, for a result that the caller reads as a C string; `none` as a name is NULL.
unfoldable pub opt_string : List Opt → Option (List ℕ) → Option (List ℕ) → List ℕ → Option (List ℕ)
unfolding find_opt section_of found_string
opt_string options section none def = some def
opt_string options section (some key) def =
    find_opt (section_of section) key options >>= found_string def

unfoldable pub found_int : ℤ → Option Opt → Option ℤ
found_int def none = some def
found_int def (some o) = c_string o.val >>= atoi

-- `spe_opt_int`
unfoldable pub opt_int : List Opt → Option (List ℕ) → Option (List ℕ) → ℤ → Option ℤ
unfolding find_opt section_of found_int
opt_int options section none def = some def
opt_int options section (some key) def = find_opt (section_of section) key options >>= found_int def

-- `spe_opt_destroy`
unfoldable pub opt_destroy : List Opt → List Opt
opt_destroy options = []
