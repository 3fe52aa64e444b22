-- ===== src/Buf/Text/Find.antt =====
-- spe_buf.c, `spe_buf_search` for its clients, also on a buffer without content.
use spe.Base.{
  ℕ, ◌+◌, ◌≤◌, ◌<◌, ◌≡◌, refl, ap, ◌∙◌, inl, inr, false, Option, none, some, List, arith, length,
  ◌==◌, if◌then◌else◌, Bool-cases,
}
use spe.Base.Text.{strstr}
use spe.Buf.{Buf}
use spe.Buf.Total.{Owns, len-Owns}
use spe.Buf.Text.{search}
use spe.Buf.Text.Search.{before_nul, search-strstr, strstr-inside}

-- Where `key` starts first, in front of the first NUL of the content.
unfoldable pub find_in : List ℕ → List ℕ → Option ℕ
find_in ys key = if length ys == 0 then none else strstr (before_nul ys) key

nonzero : (n : ℕ) → (n == 0) ≡ false → 0 < n
nonzero n h = ground arith

search_empty : (b : Buf) (key : List ℕ) → b.len ≡ 0 → search b key ≡ some none
unfolding search
search_empty b key e = rw e refl

pub search-find_in :
    {b : Buf} {ys : List ℕ} (key : List ℕ) → Owns b ys → search b key ≡ some (find_in ys key)
unfolding find_in
search-find_in {b} {ys} key o = elim (Bool-cases (length ys == 0)) [
  | inl q ↦ search_empty b key (len-Owns o ∙ ground arith) ∙ rw q refl
  | inr q ↦
      let there : 0 < b.len = omega (arith, len-Owns o, nonzero (length ys) q) in
      search-strstr b key o.valid there
      ∙ ap (λ l. some (strstr (before_nul l) key)) o.content
      ∙ rw q refl
]

-- What is found lies within the content.
pub find_in-inside :
    (ys key : List ℕ) (pos : ℕ)
    → find_in ys key ≡ some pos
    → (pos + length key ≤ length ys) × (0 < length ys)
unfolding find_in
find_in-inside ys key pos e = elim (Bool-cases (length ys == 0)) [
  | inl q ↦ let gone : none ≡ some pos = rw q at e in ground (arith, gone)
  | inr q ↦ (strstr-inside ys key pos (rw q at e), nonzero (length ys) q)
]
