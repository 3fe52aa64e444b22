-- ===== src/Rpc/Token.antt =====
-- spe_rpc.c, `checkToken`.
use mathlib.Core.Option
use spe.Base.{
  ℕ, suc, ◌+◌, ◌≤◌, ◌≡◌, refl, sym, ap, ◌∙◌, inl, inr, true, false, ◌&&◌, Option, none, some, List,
  [], ◌∷◌, ◌++◌, arith, length, ◌==◌, Bool-cases, All,
}
use spe.Rpc.{cr, lf, crlf, begins_with, check_token}

map-suc-none : (o : Option ℕ) → Option.map suc o ≡ none → o ≡ none
map-suc-none none e = refl
map-suc-none (some n) e = cc

map-suc-some :
    (o : Option ℕ) (p : ℕ) → Option.map suc o ≡ some p → (q : ℕ) × (p ≡ suc q) × (o ≡ some q)
map-suc-some none p e = cc
map-suc-some (some n) p e = (n, cc, refl)

head_token :
    (c : ℕ) (cs : List ℕ)
    → ((c == cr) && begins_with lf cs) ≡ true
    → (d : ℕ) × (ds : List ℕ) × (cs ≡ d ∷ ds)
unfolding begins_with
head_token c [] e = ground arith
head_token c (d ∷ ds) e = (d, ds, refl)

-- The token lies inside the bytes.
pub token-inside : (ys : List ℕ) (p : ℕ) → check_token ys ≡ some p → p + 2 ≤ length ys
unfolding check_token
token-inside [] p e = cc
token-inside (c ∷ cs) p e = elim (Bool-cases ((c == cr) && begins_with lf cs)) [
  | inl t ↦
      let (d, ds, q) = head_token c cs t in
      let zero_at : ◌≡◌ {A = Option ℕ} (some 0) (some p) = rw t at e in
      let at : ◌≡◌ {A = ℕ} 0 p = cc in rw q (omega arith)
  | inr t ↦
      let (q, up, there) = map-suc-some (check_token cs) p (rw t at e) in
      let ih = token-inside cs q there in omega arith
]

no_room : (c : ℕ) → check_token (c ∷ []) ≡ none
unfolding check_token begins_with
no_room c = ground arith

-- Bytes that come later do not move the first token.
pub token-append :
    (ys zs : List ℕ) (p : ℕ) → check_token ys ≡ some p → check_token (ys ++ zs) ≡ some p
unfolding check_token begins_with
token-append [] zs p e = cc
token-append (c ∷ []) zs p e = let none_there = no_room c in cc
token-append (c ∷ d ∷ ds) zs p e = elim (Bool-cases ((c == cr) && (d == lf))) [
  | inl t ↦ rw t (rw t at e)
  | inr t ↦
      let (q, up, there) = map-suc-some (check_token (d ∷ ds)) p (rw t at e) in
      let ih : check_token ((d ∷ ds) ++ zs) ≡ some q = token-append (d ∷ ds) zs q there in
      rw t (ap (Option.map suc) ih ∙ ap some (sym up))
]

-- A line without CR LF inside ends where its CR LF stands.
pub token-line :
    (xs rest : List ℕ)
    → check_token xs ≡ none
    → check_token (xs ++ (crlf ++ rest)) ≡ some (length xs)
unfolding check_token begins_with
token-line [] rest e = refl
token-line (c ∷ []) rest e = elim (Bool-cases (c == cr)) [ inl t ↦ rw t refl | inr t ↦ rw t refl ]
token-line (c ∷ d ∷ ds) rest e = elim (Bool-cases ((c == cr) && (d == lf))) [
  | inl t ↦ let found : some 0 ≡ none = rw t at e in cc
  | inr t ↦
      let plain : check_token (d ∷ ds) ≡ none = map-suc-none (check_token (d ∷ ds)) (rw t at e) in
      let ih : check_token ((d ∷ ds) ++ (crlf ++ rest)) ≡ some (length (d ∷ ds)) =
        token-line (d ∷ ds) rest plain in
      rw t (ap (Option.map suc) ih)
]

-- No byte is a CR.
pub token-no_cr : (xs : List ℕ) → All (λ c. (c == cr) ≡ false) xs → check_token xs ≡ none
unfolding check_token
token-no_cr [] h = refl
token-no_cr (c ∷ cs) h = let ih = token-no_cr cs h.1 in rw (h.0, ih) refl
