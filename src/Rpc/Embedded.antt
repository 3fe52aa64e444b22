-- ===== src/Rpc/Embedded.antt =====
-- spe_rpc.c: a parameter with a line end inside.
use mathlib.Core.List.{append_assoc}
use spe.Base.{
  ℕ, ◌+◌, ◌<◌, ◌^◌, ◌≡◌, refl, ap, ◌∙◌, true, false, none, List, [], ◌∷◌, ◌++◌, arith, length,
  length-append,
}
use spe.Base.Ints.{ℤ, pos}
use spe.Rpc.{
  crlf, star, parm, content, check_token, onward, is_under, is_over, less, on_part, on_content,
  on_line, on_move, complete, parse,
}
use spe.Rpc.Token.{token-line}
use spe.Rpc.Pieces.{parse-line}
use spe.Rpc.Request.{
  numbered, encode_params, encode, at, parse-star, parse-parm, parse-last, take-line, drop-line,
}

-- The length of a parameter with `x` before its first line end, and `y` behind it.
abbrev joined : List ℕ → List ℕ → ℕ
joined x y = length x + 2 + length y

not_under : (x y : List ℕ) → is_under (pos (joined x y)) (length x) ≡ false
unfolding is_under
not_under x y = ground arith

over : (x y : List ℕ) → is_over (pos (joined x y)) (length x) ≡ true
unfolding is_over
over x y = ground arith

less_line : (x y : List ℕ) → less (pos (joined x y)) (length x + 2) ≡ pos (length y)
unfolding less
less_line x y = ground arith

on_part-line :
    (l : ℤ) (r : List (List ℕ)) (x y rest : List ℕ)
    → on_part (at content l (pos (joined x y)) r (x ++ (crlf ++ rest))) (length x)
      ≡ onward (at content l (pos (length y)) (r ++ ((x ++ crlf) ∷ [])) rest)
unfolding on_part
on_part-line l r x y rest = rw (take-line x rest, drop-line x rest, less_line x y) refl

on_content-line :
    (l : ℤ) (r : List (List ℕ)) (x y rest : List ℕ)
    → on_content (at content l (pos (joined x y)) r (x ++ (crlf ++ rest))) (length x)
      ≡ on_part (at content l (pos (joined x y)) r (x ++ (crlf ++ rest))) (length x)
unfolding on_content
on_content-line l r x y rest = rw (not_under x y, over x y) refl

parse-part :
    (l : ℤ) (r : List (List ℕ)) (x y rest : List ℕ)
    → check_token x ≡ none
    → parse (at content l (pos (joined x y)) r (x ++ (crlf ++ rest)))
      ≡ parse (at content l (pos (length y)) (r ++ ((x ++ crlf) ∷ [])) rest)
unfolding on_line on_move
parse-part l r x y rest h =
    parse-line (at content l (pos (joined x y)) r (x ++ (crlf ++ rest))) (length x)
      (token-line x rest h)
    ∙ ap (on_move parse) (on_content-line l r x y rest ∙ on_part-line l r x y rest)

joined-length : (x y : List ℕ) → length (x ++ (crlf ++ y)) ≡ joined x y
joined-length x y = omega (arith, length-append x (crlf ++ y))

-- A request of one parameter, below 2^31 bytes, that holds one line end, between `x` and `y`: the parser hands over two parameters, `x` with the line end, and
-- `y`.
pub parse-embedded :
    (l d : ℤ) (x y rest : List ℕ)
    → check_token x ≡ none
    → check_token y ≡ none
    → length x + 2 + length y < 2 ^ 31
    → parse (at star l d [] (encode ((x ++ (crlf ++ y)) ∷ []) rest))
      ≡ complete (at star (pos 0) (pos (length y)) ((x ++ crlf) ∷ y ∷ []) rest)
unfolding encode encode_params
parse-embedded l d x y rest hx hy small =
    let behind : List ℕ = y ++ (crlf ++ rest) in
    parse-star l d [] 1 (encode_params ((x ++ (crlf ++ y)) ∷ []) rest) (omega arith) (omega arith)
    ∙ ap (λ n. parse (at parm (pos 1) d [] (numbered 36 n ((x ++ (crlf ++ y)) ++ (crlf ++ rest)))))
        (joined-length x y)
    ∙ parse-parm (pos 1) d [] (joined x y) ((x ++ (crlf ++ y)) ++ (crlf ++ rest)) small
    ∙ ap (λ b. parse (at content (pos 1) (pos (joined x y)) [] b))
        (append_assoc x (crlf ++ y) (crlf ++ rest))
    ∙ parse-part (pos 1) [] x y behind hx
    ∙ parse-last ((x ++ crlf) ∷ []) y rest hy
