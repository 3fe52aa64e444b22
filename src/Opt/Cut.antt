-- ===== src/Opt/Cut.antt =====
-- src/spe_opt.c: a string that is cut to an array fits it.
use mathlib.Core.Path.{subst}
use mathlib.Core.Option
use spe.Base.{
  ℕ, zero, suc, ◌-◌, ◌<◌, ◌≡◌, refl, sym, ap, ◌∙◌, true, Bool-cases, inl, inr, some, List, [], ◌∷◌,
  ◌++◌, arith, length, length-append, length-replicate, length-take, take, drop, replicate, set,
  get_elem?, get_elem?-set_self, ◌==◌,
}
use spe.Base.Text.{c_string}
use spe.Base.Results.{Within, Within-bind}
use spe.Buf.{Buf}
use spe.Opt.{strncpy}
use spe.Opt.Lookup.{FitsIn}
use spe.Opt.Config.{cut_string, cut_buf}

-- A block with NUL at `k` holds a C string in front of it.
c_string-FitsIn :
    (xs : List ℕ) (k : ℕ)
    → get_elem? xs k ≡ some 0
    → (s : List ℕ) × (c_string xs ≡ some s) × FitsIn (suc k) s
unfolding c_string
c_string-FitsIn [] k e = absurd cc
c_string-FitsIn (x ∷ xs) zero e =
    let end : (x == 0) ≡ true = ap (λ k. k == 0) (Option.some-injective x 0 e) in
    ([], rw end refl, (tt, omega arith))
c_string-FitsIn (x ∷ xs) (suc k) e = elim (Bool-cases (x == 0)) [
  | inl q ↦ ([], rw q refl, (tt, omega arith))
  | inr q ↦
      let (s, h, (all, f)) = c_string-FitsIn xs k e in
      (x ∷ s, rw (q, h) refl, ((q, all), omega arith))
]

cut_string-FitsIn :
    (s : List ℕ) (n : ℕ) → (r : List ℕ) × (cut_string s (suc n) ≡ some r) × FitsIn (suc n) r
unfolding cut_string strncpy
cut_string-FitsIn s n =
    let pad : length (replicate (suc n) 0) ≡ suc n = length-replicate {A = ℕ} (suc n) 0 in
    let room : n < length (take (suc n) (s ++ replicate (suc n) 0)) = omega (
      arith,
      length-take (suc n) (s ++ replicate (suc n) 0),
      length-append s (replicate (suc n) 0),
      pad,
    ) in
    let last : suc n - 1 ≡ n = omega arith in
    let (r, e, f) =
      c_string-FitsIn (set (take (suc n) (s ++ replicate (suc n) 0)) n 0) n
        (get_elem?-set_self (take (suc n) (s ++ replicate (suc n) 0)) n 0 room) in
    (r, ap (λ i. c_string (set (take (suc n) (s ++ replicate (suc n) 0)) i 0)) last ∙ e, f)

pub cut_buf-FitsIn : (b : Buf) (n : ℕ) → Within (FitsIn (suc n)) (cut_buf b (suc n))
unfolding cut_buf
cut_buf-FitsIn b n =
    Within-bind (FitsIn (suc n)) (c_string (drop b.off b.mem)) _
      (λ s. let (r, e, f) = cut_string-FitsIn s n in subst (Within (FitsIn (suc n))) (sym e) f)
