-- ===== src/Opt/Lookup.antt =====
-- src/spe_opt.c: a look-up finds the value that was set first under its section and key.
use mathlib.Core.Path.{subst}
use mathlib.Core.Option
use mathlib.Core.List.{append_assoc, append-nil}
use spe.Base.{
  ℕ, zero, suc, ◌<◌, ◌≡◌, refl, sym, ap, ◌∙◌, true, false, Bool-cases, inl, inr, Option, none, some,
  List, [], ◌∷◌, ◌++◌, map, All, arith, length, take, replicate, if◌then◌else◌, ◌>>=◌, ◌&&◌, ◌==◌,
}
use spe.Base.Ints.{ℤ, atoi}
use spe.Base.Text.{c_string, str_eq}
use spe.Opt.{
  Opt, sec_maxlen, key_maxlen, val_maxlen, strncpy, opt_set, matches, find_opt, section_of,
  found_string, found_int, opt_string, opt_int,
}

-- A setting, as `spe_opt_create` finds it in the file.
pub record Setting : Type 0 where
  pub sec : List ℕ
  pub key : List ℕ
  pub val : List ℕ

-- A C string that fits an array of `n` bytes.
abbrev pub FitsIn : ℕ → List ℕ → Type 0
FitsIn n s = All (λ c. (c == 0) ≡ false) s × (length s < n)

abbrev pub IsSetting : Setting → Type 0
IsSetting e = FitsIn sec_maxlen e.sec × FitsIn key_maxlen e.key × FitsIn val_maxlen e.val

-- The settings one after another.
unfoldable pub set_all : List Opt → List Setting → List Opt
set_all options [] = options
set_all options (e ∷ es) = set_all (opt_set true options e.sec e.key e.val).1 es

-- The setting that comes first under its names.
pub first_setting : List ℕ → List ℕ → List Setting → Option Setting
first_setting s k [] = none
first_setting s k (e ∷ es) =
    if str_eq s e.sec && str_eq k e.key then some e else first_setting s k es

pub value_or : List ℕ → Option Setting → List ℕ
value_or def none = def
value_or def (some e) = e.val

pub int_or : ℤ → Option Setting → Option ℤ
int_or def none = some def
int_or def (some e) = atoi e.val

stored : Setting → Opt
stored e = record {
  sec = strncpy e.sec sec_maxlen;
  key = strncpy e.key key_maxlen;
  val = strncpy e.val val_maxlen;
}

set_all-map :
    (options : List Opt) (es : List Setting) → set_all options es ≡ options ++ map stored es
unfolding set_all opt_set stored
set_all-map options [] = sym (append-nil options)
set_all-map options (e ∷ es) =
    set_all-map (options ++ (stored e ∷ [])) es
    ∙ append_assoc options (stored e ∷ []) (map stored es)

c_string-padded :
    (s : List ℕ) (n m : ℕ)
    → All (λ c. (c == 0) ≡ false) s
    → length s < n
    → c_string (take n (s ++ replicate (suc m) 0)) ≡ some s
unfolding c_string
c_string-padded [] zero m h f = absurd (omega arith)
c_string-padded [] (suc n) m h f = refl
c_string-padded (c ∷ cs) zero m h f = absurd (omega arith)
c_string-padded (c ∷ cs) (suc n) m (h, hs) f = rw (h, c_string-padded cs n m hs (omega arith)) refl

pub c_string-strncpy :
    (s : List ℕ) (n : ℕ) → FitsIn (suc n) s → c_string (strncpy s (suc n)) ≡ some s
unfolding strncpy
c_string-strncpy s n (h, f) = c_string-padded s (suc n) n h f

stored_val : Option Setting → Option Opt
stored_val none = none
stored_val (some e) = some (stored e)

matches-stored :
    (s k : List ℕ) (e : Setting)
    → IsSetting e
    → matches s k (stored e) ≡ some (str_eq s e.sec && str_eq k e.key)
unfolding matches stored
matches-stored s k e (hs, hk, hv) = elim (Bool-cases (str_eq s e.sec)) [
  | inl q ↦ rw (c_string-strncpy e.sec 15 hs, ◌>>=◌, q, c_string-strncpy e.key 15 hk, ◌>>=◌) refl
  | inr q ↦ rw (c_string-strncpy e.sec 15 hs, ◌>>=◌, q) refl
]

find_opt-stored :
    (s k : List ℕ) (es : List Setting)
    → All IsSetting es
    → find_opt s k (map stored es) ≡ some (stored_val (first_setting s k es))
unfolding find_opt first_setting stored_val
find_opt-stored s k [] h = refl
find_opt-stored s k (e ∷ es) (h, hs) = elim (Bool-cases (str_eq s e.sec && str_eq k e.key)) [
  | inl q ↦ rw (matches-stored s k e h, ◌>>=◌, q) refl
  | inr q ↦ rw (matches-stored s k e h, ◌>>=◌, q) (find_opt-stored s k es hs)
]

first_setting-IsSetting :
    (s k : List ℕ) (es : List Setting) (e : Setting)
    → All IsSetting es
    → first_setting s k es ≡ some e
    → IsSetting e
unfolding first_setting
first_setting-IsSetting s k [] e h q = absurd cc
first_setting-IsSetting s k (d ∷ ds) e (h, hs) q =
    elim (Bool-cases (str_eq s d.sec && str_eq k d.key)) [
      | inl z ↦ subst IsSetting (Option.some-injective d e (rw z at q)) h
      | inr z ↦ first_setting-IsSetting s k ds e hs (rw z at q)
    ]

found-value :
    (def : List ℕ) (d : ℤ) (o : Option Setting)
    → ((e : Setting) → o ≡ some e → IsSetting e)
    → (found_string def (stored_val o) ≡ some (value_or def o))
      × (found_int d (stored_val o) ≡ int_or d o)
unfolding found_string found_int stored_val value_or int_or stored
found-value def d none h = (refl, refl)
found-value def d (some e) h =
    let read = c_string-strncpy e.val 127 (h e refl).2 in (read, rw (read, ◌>>=◌) refl)

-- After settings that fit their arrays, and hold no NUL, `spe_opt_string` and `spe_opt_int` give the value
-- that was set first under the section, or "global", and the key, the second one as atoi reads it, and
-- the default if there is none.
pub lookup_first :
    (es : List Setting) (sec : Option (List ℕ)) (key def : List ℕ) (d : ℤ)
    → All IsSetting es
    → (opt_string (set_all [] es) sec (some key) def
        ≡ some (value_or def (first_setting (section_of sec) key es)))
      × (opt_int (set_all [] es) sec (some key) d
          ≡ int_or d (first_setting (section_of sec) key es))
unfolding opt_string opt_int
lookup_first es sec key def d h =
    let s : List ℕ = section_of sec in
    let found : find_opt s key (set_all [] es) ≡ some (stored_val (first_setting s key es)) =
      ap (find_opt s key) (set_all-map [] es) ∙ find_opt-stored s key es h in
    let (a, b) =
      found-value def d (first_setting s key es) (λ e q. first_setting-IsSetting s key es e h q) in
    (rw (found, ◌>>=◌) a, rw (found, ◌>>=◌) b)
