-- ===== src/Tests/Configs.antt =====
-- `spe_opt_create` on a file with one line.
use spe.Base.{ℕ, false, List, [], ◌∷◌}
use spe.Base.System.{ReadAnswer, at_end}
use spe.Io.{Io, read_none}
use spe.Opt.{Opt, strncpy, global_section}

-- "a=1\n" has been read from the file, which is at its end.
abbrev one_line : Io
one_line = record {
  rbuf = record { mem = 97 ∷ 61 ∷ 49 ∷ 10 ∷ 0 ∷ 7 ∷ []; off = 0; len = 4; size = 6 };
  delim = [];
  rbytes = 0;
  rtype = read_none;
  is_closed = false;
  is_error = false;
}

abbrev ends : ℕ → ReadAnswer
ends n = at_end

abbrev one_option : List Opt
one_option =
    record {
      sec = strncpy global_section 16;
      key = strncpy (97 ∷ []) 16;
      val = strncpy (49 ∷ []) 128;
    }
    ∷ []
