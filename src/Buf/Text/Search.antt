-- ===== src/Buf/Text/Search.antt =====
-- spe_buf.c, `spe_buf_search`: it finds the first occurrence in front of the first NUL.
use mathlib.Core.Option
use mathlib.Core.Path.{subst}
use spe.Base.{
  ℕ, suc, ◌+◌, ◌<◌, ◌≤◌, ◌≡◌, refl, sym, ap, length-append, ◌∙◌, inl, inr, true, false, Option,
  none, some, List, [], ◌∷◌, ◌++◌, arith, length, drop, get_elem?, get_elem?-drop, split_at,
  Bool-cases, ◌==◌, if◌then◌else◌,
}
use spe.Base.Text.{c_string, is_prefix, strstr}
use spe.Buf.{Buf, bytes}
use spe.Buf.Valid.{IsValid}
use spe.Buf.Text.{search}

-- The bytes in front of the first NUL.
unfoldable pub before_nul : List ℕ → List ℕ
before_nul [] = []
before_nul (c ∷ cs) = if c == 0 then [] else c ∷ before_nul cs

pub c_string-before_nul : (xs rest : List ℕ) → c_string (xs ++ (0 ∷ rest)) ≡ some (before_nul xs)
unfolding c_string before_nul
c_string-before_nul [] rest = refl
c_string-before_nul (c ∷ cs) rest = elim (Bool-cases (c == 0)) [
  | inl e ↦ rw e
  | inr e ↦ rw (e, c_string-before_nul cs rest)
]

pub search-strstr :
    (b : Buf) (key : List ℕ)
    → IsValid b
    → 0 < b.len
    → search b key ≡ some (strstr (before_nul (bytes b)) key)
unfolding search
search-strstr b key v h = elim v.ended [
  | inl z ↦ absurd (omega arith)
  | inr e ↦
      let at_end : get_elem? (drop b.off b.mem) b.len ≡ some 0 =
        get_elem?-drop b.off b.len (b.off + b.len) b.mem refl ∙ e in
      let rest : List ℕ = drop (suc b.len) (drop b.off b.mem) in
      let scanned : c_string (drop b.off b.mem) ≡ some (before_nul (bytes b)) =
        ap c_string (split_at b.len (drop b.off b.mem) 0 at_end)
        ∙ c_string-before_nul (bytes b) rest in
      let full : (b.len == 0) ≡ false = ground arith in rw (full, scanned)
]

-- `key` starts nowhere in the text.
abbrev pub StartsNowhere : List ℕ → List ℕ → Type 0
StartsNowhere key [] = is_prefix key [] ≡ false
StartsNowhere key (c ∷ cs) = (is_prefix key (c ∷ cs) ≡ false) × StartsNowhere key cs

-- `key` starts at no position of `before`, with `rest` behind it.
abbrev pub StartsNotIn : List ℕ → List ℕ → List ℕ → Type 0
StartsNotIn key [] rest = Unit
StartsNotIn key (c ∷ cs) rest = (is_prefix key (c ∷ (cs ++ rest)) ≡ false) × StartsNotIn key cs rest

-- The first occurrence of `key`: what stands before and after it.
pub record FirstAt (key text : List ℕ) (i : ℕ) : Type 0 where
  pub before : List ℕ
  pub after : List ℕ
  pub parts : text ≡ before ++ (key ++ after)
  pub at : length before ≡ i
  pub first : StartsNotIn key before (key ++ after)

is_prefix-parts :
    (key text : List ℕ) → is_prefix key text ≡ true → (rest : List ℕ) × (text ≡ key ++ rest)
unfolding is_prefix
is_prefix-parts [] text h = (text, refl)
is_prefix-parts (k ∷ ks) [] h = cc
is_prefix-parts (k ∷ ks) (c ∷ cs) h =
    let (rest, e) = is_prefix-parts ks cs (ground arith) in
    let same : c ≡ k = ground arith in (rest, rw (same, e))

abbrev pub Found : List ℕ → List ℕ → Option ℕ → Type 0
Found key text none = StartsNowhere key text
Found key text (some i) = FirstAt key text i

Found-cons :
    (key cs : List ℕ) (c : ℕ) (o : Option ℕ)
    → is_prefix key (c ∷ cs) ≡ false
    → Found key cs o
    → Found key (c ∷ cs) (Option.map suc o)
Found-cons key cs c none e h = (e, h)
Found-cons key cs c (some i) e h = record {
  before = c ∷ h.before;
  after = h.after;
  parts = ap (◌∷◌ c) h.parts;
  at = ap suc h.at;
  first = (ap (λ l. is_prefix key (c ∷ l)) (sym h.parts) ∙ e, h.first);
}

pub strstr-Found : (text key : List ℕ) → Found key text (strstr text key)
unfolding strstr
strstr-Found [] key = elim (Bool-cases (is_prefix key [])) [
  | inl e ↦
      let (rest, p) = is_prefix-parts key [] e in
      rw (e, strstr) (record { before = []; after = rest; parts = p; at = refl; first = tt })
  | inr e ↦ rw (e, strstr) e
]
strstr-Found (c ∷ cs) key = elim (Bool-cases (is_prefix key (c ∷ cs))) [
  | inl e ↦
      let (rest, p) = is_prefix-parts key (c ∷ cs) e in
      rw (e, strstr) (record { before = []; after = rest; parts = p; at = refl; first = tt })
  | inr e ↦ rw (e, strstr) (Found-cons key cs c (strstr cs key) e (strstr-Found cs key))
]

length-before_nul : (ys : List ℕ) → length (before_nul ys) ≤ length ys
unfolding before_nul
length-before_nul [] = omega arith
length-before_nul (y ∷ ys) = elim (Bool-cases (y == 0)) [
  | inl e ↦ rw e (omega arith)
  | inr e ↦
      let step : length (before_nul ys) ≤ length ys = length-before_nul ys in rw e (omega arith)
]

-- The delimiter lies within the bytes.
pub strstr-inside :
    (ys d : List ℕ) (pos : ℕ) → strstr (before_nul ys) d ≡ some pos → pos + length d ≤ length ys
strstr-inside ys d pos e =
    let f : FirstAt d (before_nul ys) pos =
      subst (λ o. Found d (before_nul ys) o) e (strstr-Found (before_nul ys) d) in
    let whole : length (before_nul ys) ≡ length f.before + (length d + length f.after) =
      ap length f.parts
      ∙ length-append f.before (d ++ f.after)
      ∙ ap (◌+◌ (length f.before)) (length-append d f.after) in
    let short : length (before_nul ys) ≤ length ys = length-before_nul ys in omega (arith, f.at)

-- On a valid buffer with content, `spe_buf_search` stays inside the block, and finds the first occurrence of `key` in the content
-- up to its first NUL, or tells that there is none.
pub search-Found :
    (b : Buf) (key : List ℕ)
    → IsValid b
    → 0 < b.len
    → (r : Option ℕ) × (search b key ≡ some r) × Found key (before_nul (bytes b)) r
search-Found b key v h = (
  strstr (before_nul (bytes b)) key,
  search-strstr b key v h,
  strstr-Found (before_nul (bytes b)) key,
)
