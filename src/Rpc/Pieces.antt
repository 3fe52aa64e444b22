-- ===== src/Rpc/Pieces.antt =====
-- spe_rpc.c, `rpcParse`: the loop ends, and the bytes may come in any pieces.
use mathlib.Core.List.{append_assoc, append-nil}
use spe.Base.{
  ℕ, zero, suc, ◌+◌, ◌<◌, ◌≡◌, refl, sym, ap, ◌∙◌, inl, inr, none, some, List, [], ◌∷◌, ◌++◌, arith,
  length, length-drop, drop, Option-cases,
}
use spe.Rpc.{
  Rpc, check_token, Move, onward, errout, finished, overflow, on_line, Verdict, waiting, dropped,
  complete, undefined, out_of_fuel, on_move, on_token, parse_loop, parse,
}
use spe.Rpc.Token.{token-inside, token-append}
use spe.Rpc.Line.{more, more_behind, on_line-more, Taken, on_line-Taken}

module _ (s : Rpc) (p : ℕ) (at : check_token s.buffer ≡ some p) where
  -- Two runs of the rest, after a line.
  on_move-same :
      (again again' : Rpc → Verdict)
      → ((s' : Rpc) → length s'.buffer < length s.buffer → again s' ≡ again' s')
      → (m : Move) → Taken (drop (p + 2) s.buffer) m
      → on_move again m ≡ on_move again' m
  unfolding on_move
  on_move-same again again' same (onward s') h =
      same s' (omega (arith, ap length h, length-drop (p + 2) s.buffer, token-inside s.buffer p at))
  on_move-same again again' same errout h = refl
  on_move-same again again' same (finished s') h = refl
  on_move-same again again' same overflow h = refl

-- Fuel beyond the length of the buffer changes nothing.
fuel-irrelevant :
    (f g : ℕ) (s : Rpc)
    → length s.buffer < f
    → length s.buffer < g
    → parse_loop f s ≡ parse_loop g s
unfolding parse_loop on_token
fuel-irrelevant zero g s h k = absurd (omega arith)
fuel-irrelevant (suc f) zero s h k = absurd (omega arith)
fuel-irrelevant (suc f) (suc g) s h k = elim (Option-cases (check_token s.buffer)) [
  | inl e ↦ rw e refl
  | inr (p, e) ↦ rw e (
      on_move-same s p e (parse_loop f) (parse_loop g)
        (λ s' lt. fuel-irrelevant f g s' (omega arith) (omega arith)) (on_line s.status s p)
        (on_line-Taken s.status s p))
]

-- The rounds of the loop, without fuel.
pub parse-none : (s : Rpc) → check_token s.buffer ≡ none → parse s ≡ waiting s
unfolding parse parse_loop on_token
parse-none s e = rw e refl

pub parse-line :
    (s : Rpc) (p : ℕ)
    → check_token s.buffer ≡ some p
    → parse s ≡ on_move parse (on_line s.status s p)
unfolding parse parse_loop on_token
parse-line s p e = rw e (
    on_move-same s p e (parse_loop (length s.buffer)) parse
      (λ s' lt. fuel-irrelevant (length s.buffer) (suc (length s'.buffer)) s' lt (omega arith))
      (on_line s.status s p) (on_line-Taken s.status s p))

-- The rest of the parse, when `zs` comes behind what was there.
abbrev pub resume : List ℕ → Verdict → Verdict
resume zs (waiting s) = parse (more zs s)
resume zs dropped = dropped
resume zs (complete s) = complete (more zs s)
resume zs undefined = undefined
resume zs out_of_fuel = out_of_fuel

on_move-more :
    (f : ℕ) (s : Rpc) (zs : List ℕ) (p : ℕ) (at : check_token s.buffer ≡ some p)
    → length s.buffer < suc f
    → ((s' : Rpc) → length s'.buffer < f → parse (more zs s') ≡ resume zs (parse s'))
    → (m : Move) → Taken (drop (p + 2) s.buffer) m
    → on_move parse (more_behind zs m) ≡ resume zs (on_move parse m)
unfolding on_move
on_move-more f s zs p at h ih (onward s') t =
    ih s' (omega (arith, ap length t, length-drop (p + 2) s.buffer, token-inside s.buffer p at))
on_move-more f s zs p at h ih errout t = refl
on_move-more f s zs p at h ih (finished s') t = refl
on_move-more f s zs p at h ih overflow t = refl

more-resume :
    (f : ℕ) (s : Rpc) (zs : List ℕ) → length s.buffer < f → parse (more zs s) ≡ resume zs (parse s)
more-resume zero s zs h = absurd (omega arith)
more-resume (suc f) s zs h = elim (Option-cases (check_token s.buffer)) [
  | inl e ↦ rw (parse-none s e) refl
  | inr (p, e) ↦
      parse-line (more zs s) p (token-append s.buffer zs p e)
      ∙ ap (on_move parse) (on_line-more s.status s zs p (token-inside s.buffer p e))
      ∙ on_move-more f s zs p e h (λ s' lt. more-resume f s' zs lt) (on_line s.status s p)
          (on_line-Taken s.status s p)
      ∙ ap (resume zs) (sym (parse-line s p e))
]

-- The bytes come in pieces, and the parser runs at each; behind a request they stay in the buffer.
pub arrive : List (List ℕ) → Verdict → Verdict
arrive [] v = v
arrive (zs ∷ zss) v = arrive zss (resume zs v)

pub together : List (List ℕ) → List ℕ
together [] = []
together (zs ∷ zss) = zs ++ together zss

-- From any state of the parser: whether the bytes come at once or in pieces, cut anywhere, also inside a line end, the
-- parser comes to the same verdict, with the same state, request and bytes left.
pub arrive-together :
    (zss : List (List ℕ)) (s : Rpc) → arrive zss (parse s) ≡ parse (more (together zss) s)
unfolding arrive together
arrive-together [] s = ap (λ l. parse (record s { buffer = l })) (sym (append-nil s.buffer))
arrive-together (zs ∷ zss) s =
    ap (arrive zss) (sym (more-resume (suc (length s.buffer)) s zs (omega arith)))
    ∙ arrive-together zss (more zs s)
    ∙ ap (λ l. parse (record s { buffer = l })) (append_assoc s.buffer zs (together zss))
