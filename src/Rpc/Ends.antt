-- ===== src/Rpc/Ends.antt =====
-- spe_rpc.c, `rpcParse`: what holds where its loop ends.
use spe.Base.{
  ℕ, zero, suc, ◌+◌, ◌<◌, ◌≡◌, refl, ap, inl, inr, Bool, true, not, ◌||◌, Option, none, some, [],
  ◌∷◌, arith, length, length-append, length-drop, take, drop, ltb, Option-cases, Bool-cases,
}
use spe.Base.Ints.{ℤ, pos, negsuc, is_not_positive}
use spe.Rpc.{
  ParseStatus, star, parm, content, Rpc, begins_with, check_token, Move, onward, errout, finished,
  overflow, number_at, on_number, is_negative, is_under, is_over, less, is_done, on_star, on_parm,
  on_content, on_part, on_last, on_line, Verdict, waiting, dropped, complete, undefined,
  out_of_fuel, on_move, parse,
}
use spe.Rpc.Token.{token-inside}
use spe.Rpc.Line.{Taken, on_line-Taken}
use spe.Rpc.Pieces.{parse-none, parse-line}

-- A request that goes to `rpcProcess`: the parser is at the start of the next one, no parameter is
-- left, and there is at least one, so that `request->Data[0]` is there.
pub record IsRequest (s : Rpc) : Type 0 where
  pub at_start : s.status ≡ star
  pub all_there : s.param_left ≡ pos 0
  pub has_command : 0 < length s.request

abbrev Completes : Move → Type 0
Completes (finished s) = IsRequest s
Completes _ = Unit

is_done-pos : (n : ℤ) → is_done n ≡ true → n ≡ pos 0
unfolding is_done
is_done-pos (pos n) e = ap pos (ground arith)
is_done-pos (negsuc n) e = cc

on_number-Completes :
    (refused : ℤ → Bool) (f : ℤ → Rpc) (o : Option ℤ) → Completes (on_number refused f o)
unfolding on_number
on_number-Completes refused f none = tt
on_number-Completes refused f (some n) = elim (Bool-cases (refused n)) [
  | inl e ↦ rw e tt
  | inr e ↦ rw e tt
]

on_last-Completes : (s : Rpc) (p : ℕ) → Completes (on_last s p)
unfolding on_last
on_last-Completes s p = elim (Bool-cases (is_done (less s.param_left 1))) [
  | inl z ↦ rw z (record {
    at_start = refl;
    all_there = is_done-pos (less s.param_left 1) z;
    has_command = omega (arith, length-append s.request (take p s.buffer ∷ []));
  })
  | inr z ↦ rw z tt
]

on_line-Completes : (t : ParseStatus) (s : Rpc) (p : ℕ) → Completes (on_line t s p)
unfolding on_line on_star on_parm on_content on_part
on_line-Completes star s p = elim (Bool-cases (ltb p 2 || not (begins_with 42 s.buffer))) [
  | inl e ↦ rw e tt
  | inr e ↦ rw e (on_number-Completes is_not_positive _ (number_at s.buffer p))
]
on_line-Completes parm s p = elim (Bool-cases (ltb p 2 || not (begins_with 36 s.buffer))) [
  | inl e ↦ rw e tt
  | inr e ↦ rw e (on_number-Completes is_negative _ (number_at s.buffer p))
]
on_line-Completes content s p = elim (Bool-cases (is_under s.data_left p)) [
  | inl e ↦ rw e tt
  | inr e ↦ elim (Bool-cases (is_over s.data_left p)) [
    | inl f ↦ rw (e, f) tt
    | inr f ↦ rw (e, f) (on_last-Completes s p)
  ]
]

-- What each verdict says. The fuel never runs out.
abbrev pub Ends : Verdict → Type 0
Ends (waiting s) = check_token s.buffer ≡ none
Ends (complete s) = IsRequest s
Ends dropped = Unit
Ends undefined = Unit
Ends out_of_fuel = ⊥

on_move-Ends :
    (f : ℕ) (s : Rpc) (p : ℕ)
    → check_token s.buffer ≡ some p
    → length s.buffer < suc f
    → ((s' : Rpc) → length s'.buffer < f → Ends (parse s'))
    → (m : Move) → Taken (drop (p + 2) s.buffer) m
    → Completes m
    → Ends (on_move parse m)
unfolding on_move
on_move-Ends f s p at h ih (onward s') t c =
    ih s' (omega (arith, ap length t, length-drop (p + 2) s.buffer, token-inside s.buffer p at))
on_move-Ends f s p at h ih errout t c = tt
on_move-Ends f s p at h ih (finished s') t c = c
on_move-Ends f s p at h ih overflow t c = tt

parse_below : (f : ℕ) (s : Rpc) → length s.buffer < f → Ends (parse s)
parse_below zero s h = absurd (omega arith)
parse_below (suc f) s h = elim (Option-cases (check_token s.buffer)) [
  | inl e ↦ rw (parse-none s e) e
  | inr (p, e) ↦ rw (parse-line s p e) (
      on_move-Ends f s p e h (λ s' lt. parse_below f s' lt) (on_line s.status s p)
        (on_line-Taken s.status s p) (on_line-Completes s.status s p))
]

-- From any state, the loop of `rpcParse` ends. When it asks for more bytes, no whole line is left; when it hands over a
-- request, the request has a command, no parameter is left, and the parser stands at the start of the next request.
pub parse-Ends : (s : Rpc) → Ends (parse s)
parse-Ends s = parse_below (suc (length s.buffer)) s (omega arith)
