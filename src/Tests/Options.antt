-- ===== src/Tests/Options.antt =====
-- spe_opt.c and `spe_buf_split` at concrete inputs.
use spe.Base.{ℕ, ◌≡◌, refl, inr, true, none, some, List, [], ◌∷◌, arith}
use spe.Base.Ints.{pos}
use spe.Buf.{Buf}
use spe.Buf.Total.{Owns}
use spe.Buf.Split.{Bufs, buf_split}
use spe.Buf.Split.Cells.{Holds}
use spe.Buf.Split.Pieces.{IsSplit, buf_split-IsSplit}
use spe.Opt.{opt_int, opt_string, section_of, global_section}
use spe.Opt.Lookup.{Setting, set_all, first_setting, value_or, int_or, FitsIn, lookup_first}
use spe.Tests.Environment.{plain_realloc, plain_realloc-IsRealloc, plain_realloc-IsTotal}

-- "a==b"
abbrev pair_buf : Buf
pair_buf = record { mem = 97 ∷ 61 ∷ 61 ∷ 98 ∷ 0 ∷ 7 ∷ []; off = 0; len = 4; size = 6 }

abbrev pair_text : List ℕ
pair_text = 97 ∷ 61 ∷ 61 ∷ 98 ∷ []

pair_buf-Owns : Owns pair_buf pair_text
pair_buf-Owns = record {
  valid = record { block = refl; small = omega arith; room = inr (omega arith); ended = inr refl };
  content = refl;
  modest = omega arith;
}

buf_split-IsSplit_example :
    (r : Bufs) × (qs : List (List ℕ)) × (buf_split plain_realloc
        (λ n. true)
        (λ n. true)
        pair_buf
        (61 ∷ [])
      ≡ some (some r))
    × Holds r qs
    × IsSplit (61 ∷ []) pair_text qs
buf_split-IsSplit_example =
    buf_split-IsSplit pair_buf pair_text pair_buf-Owns plain_realloc plain_realloc-IsRealloc
      plain_realloc-IsTotal (omega arith) (61 ∷ []) (omega arith)

-- procs = 4, twice, and port = 80 in the section "w"
abbrev procs_name : List ℕ
procs_name = 112 ∷ 114 ∷ 111 ∷ 99 ∷ 115 ∷ []

abbrev settings : List Setting
settings =
    record { sec = global_section; key = procs_name; val = 52 ∷ [] }
    ∷ record { sec = global_section; key = procs_name; val = 56 ∷ [] }
    ∷ record { sec = 119 ∷ []; key = 112 ∷ []; val = 56 ∷ 48 ∷ [] }
    ∷ []

fits_global : FitsIn 16 global_section
fits_global = ((refl, (refl, (refl, (refl, (refl, (refl, tt)))))), omega arith)

fits_procs : FitsIn 16 procs_name
fits_procs = ((refl, (refl, (refl, (refl, (refl, tt))))), omega arith)

lookup_first_example :
    (opt_string (set_all [] settings) none (some procs_name) []
      ≡ some (value_or [] (first_setting (section_of none) procs_name settings)))
    × (opt_int (set_all [] settings) none (some procs_name) (pos 1)
        ≡ int_or (pos 1) (first_setting (section_of none) procs_name settings))
lookup_first_example = lookup_first settings none procs_name [] (pos 1) (
  (fits_global, fits_procs, ((refl, tt), omega arith)),
  (
    (fits_global, fits_procs, ((refl, tt), omega arith)),
    ((((refl, tt), omega arith), ((refl, tt), omega arith), ((refl, (refl, tt)), omega arith)), tt),
  ),
)
