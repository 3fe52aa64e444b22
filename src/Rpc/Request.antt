-- ===== src/Rpc/Request.antt =====
-- A request as a client sends it to spe_rpc.c, and the lines of it that the parser takes.
use spe.Base.{
  ℕ, suc, ◌+◌, ◌<◌, ◌^◌, ◌≡◌, refl, ap, ◌∙◌, Bool, false, ◌==◌, Option, none, some, List, [], ◌∷◌,
  ◌++◌, arith, length, take, drop, ltb, All,
}
use spe.Base.Ints.{ℤ, pos, is_not_positive, atoi}
use spe.Base.Ints.Decimal.{decimal, decimal-IsDigit, decimal-front, digit-ne, atoi-decimal, IsDigit}
use spe.Rpc.{
  cr, crlf, ParseStatus, star, parm, content, Rpc, begins_with, check_token, onward, number_at,
  on_number, is_negative, is_under, is_over, less, is_done, on_star, on_parm, on_content, on_last,
  on_line, complete, on_move, parse,
}
use spe.Rpc.Token.{token-line, token-no_cr}
use spe.Rpc.Pieces.{parse-line}

-- A line with a number: `*` or `$` and the digits.
abbrev pub numbered : ℕ → ℕ → List ℕ → List ℕ
numbered k n rest = (k ∷ decimal n) ++ (crlf ++ rest)

-- Each parameter with its length before it.
unfoldable pub encode_params : List (List ℕ) → List ℕ → List ℕ
encode_params [] rest = rest
encode_params (a ∷ args) rest = numbered 36 (length a) (a ++ (crlf ++ encode_params args rest))

unfoldable pub encode : List (List ℕ) → List ℕ → List ℕ
encode args rest = numbered 42 (length args) (encode_params args rest)

-- A parameter that the protocol can carry: no line ends inside it, and its length is an `int`.
pub record IsPlain (a : List ℕ) : Type 0 where
  pub one_line : check_token a ≡ none
  pub fits : length a < 2 ^ 31

take-length : (xs ys : List ℕ) → take (length xs) (xs ++ ys) ≡ xs
take-length [] ys = refl
take-length (x ∷ xs) ys = ap (◌∷◌ x) (take-length xs ys)

drop-length : (xs ys : List ℕ) → drop (length xs) (xs ++ ys) ≡ ys
drop-length [] ys = refl
drop-length (x ∷ xs) ys = drop-length xs ys

pub take-line : (xs rest : List ℕ) → take (length xs + 2) (xs ++ (crlf ++ rest)) ≡ xs ++ crlf
take-line [] rest = refl
take-line (x ∷ xs) rest =
    let e : length (x ∷ xs) + 2 ≡ suc (length xs + 2) = omega arith in
    ap (λ k. take k (x ∷ (xs ++ (crlf ++ rest)))) e ∙ ap (◌∷◌ x) (take-line xs rest)

pub drop-line : (xs rest : List ℕ) → drop (length xs + 2) (xs ++ (crlf ++ rest)) ≡ rest
drop-line [] rest = refl
drop-line (x ∷ xs) rest =
    let e : length (x ∷ xs) + 2 ≡ suc (length xs + 2) = omega arith in
    ap (λ k. drop k (x ∷ (xs ++ (crlf ++ rest)))) e ∙ drop-line xs rest

digit-not_cr : (xs : List ℕ) → All IsDigit xs → All (λ c. (c == cr) ≡ false) xs
digit-not_cr [] h = tt
digit-not_cr (x ∷ xs) h = (digit-ne x cr h.0 (omega arith), digit-not_cr xs h.1)

numbered-token :
    (k n : ℕ) (rest : List ℕ)
    → (k == cr) ≡ false
    → check_token (numbered k n rest) ≡ some (length (k ∷ decimal n))
numbered-token k n rest h =
    token-line (k ∷ decimal n) rest
      (token-no_cr (k ∷ decimal n) (h, digit-not_cr (decimal n) (decimal-IsDigit n)))

numbered-number :
    (k n : ℕ) (rest : List ℕ)
    → n < 2 ^ 31
    → number_at (numbered k n rest) (length (k ∷ decimal n)) ≡ some (pos n)
unfolding number_at
numbered-number k n rest h =
    ap (λ j. atoi (take j (decimal n ++ (crlf ++ rest)))) (omega arith)
    ∙ ap atoi (take-length (decimal n) (crlf ++ rest))
    ∙ atoi-decimal n h

length-decimal : (n : ℕ) → 0 < length (decimal n)
length-decimal n = let (c, cs, e) = decimal-front n in omega (arith, ap length e)

long_enough : (k n : ℕ) → ltb (length (k ∷ decimal n)) 2 ≡ false
long_enough k n = ground (arith, length-decimal n)

-- A state of the parser.
abbrev pub at : ParseStatus → ℤ → ℤ → List (List ℕ) → List ℕ → Rpc
at t l d r b = record { status = t; param_left = l; data_left = d; request = r; buffer = b }

on_number-accepted :
    (refused : ℤ → Bool) (f : ℤ → Rpc) (n : ℤ) (o : Option ℤ)
    → o ≡ some n
    → refused n ≡ false
    → on_number refused f o ≡ onward (f n)
unfolding on_number
on_number-accepted refused f n o e h = rw (e, h) refl

-- The line with the number of parameters.
on_star-numbered :
    (l d : ℤ) (r : List (List ℕ)) (n : ℕ) (rest : List ℕ)
    → 0 < n
    → n < 2 ^ 31
    → on_star (at star l d r (numbered 42 n rest)) (length (42 ∷ decimal n))
      ≡ onward (at parm (pos n) d r rest)
unfolding on_star begins_with is_not_positive
on_star-numbered l d r n rest h k = rw (long_enough 42 n) (
    on_number-accepted is_not_positive
      (λ m. at parm m d r (drop (length (42 ∷ decimal n) + 2) (numbered 42 n rest))) (pos n) _
      (numbered-number 42 n rest k) (ground arith)
    ∙ ap (λ b. onward (at parm (pos n) d r b)) (drop-line (42 ∷ decimal n) rest))

pub parse-star :
    (l d : ℤ) (r : List (List ℕ)) (n : ℕ) (rest : List ℕ)
    → 0 < n
    → n < 2 ^ 31
    → parse (at star l d r (numbered 42 n rest)) ≡ parse (at parm (pos n) d r rest)
unfolding on_move on_line
parse-star l d r n rest h k =
    parse-line (at star l d r (numbered 42 n rest)) (length (42 ∷ decimal n))
      (numbered-token 42 n rest refl)
    ∙ ap (on_move parse) (on_star-numbered l d r n rest h k)

-- The line with the length of a parameter.
on_parm-numbered :
    (l d : ℤ) (r : List (List ℕ)) (n : ℕ) (rest : List ℕ)
    → n < 2 ^ 31
    → on_parm (at parm l d r (numbered 36 n rest)) (length (36 ∷ decimal n))
      ≡ onward (at content l (pos n) r rest)
unfolding on_parm begins_with is_negative
on_parm-numbered l d r n rest k = rw (long_enough 36 n) (
    on_number-accepted is_negative
      (λ m. at content l m r (drop (length (36 ∷ decimal n) + 2) (numbered 36 n rest))) (pos n) _
      (numbered-number 36 n rest k) refl
    ∙ ap (λ b. onward (at content l (pos n) r b)) (drop-line (36 ∷ decimal n) rest))

pub parse-parm :
    (l d : ℤ) (r : List (List ℕ)) (n : ℕ) (rest : List ℕ)
    → n < 2 ^ 31
    → parse (at parm l d r (numbered 36 n rest)) ≡ parse (at content l (pos n) r rest)
unfolding on_move on_line
parse-parm l d r n rest k =
    parse-line (at parm l d r (numbered 36 n rest)) (length (36 ∷ decimal n))
      (numbered-token 36 n rest refl)
    ∙ ap (on_move parse) (on_parm-numbered l d r n rest k)

-- A whole parameter.
on_content-whole :
    (l : ℤ) (r : List (List ℕ)) (a rest : List ℕ)
    → on_content (at content l (pos (length a)) r (a ++ (crlf ++ rest))) (length a)
      ≡ on_last (at content l (pos (length a)) r (a ++ (crlf ++ rest))) (length a)
unfolding on_content is_under is_over
on_content-whole l r a rest = ground arith

parse-whole :
    (l : ℤ) (r : List (List ℕ)) (a rest : List ℕ)
    → check_token a ≡ none
    → parse (at content l (pos (length a)) r (a ++ (crlf ++ rest)))
      ≡ on_move parse (on_last (at content l (pos (length a)) r (a ++ (crlf ++ rest))) (length a))
unfolding on_line
parse-whole l r a rest h =
    parse-line (at content l (pos (length a)) r (a ++ (crlf ++ rest))) (length a)
      (token-line a rest h)
    ∙ ap (on_move parse) (on_content-whole l r a rest)

less_one : (k : ℕ) → less (pos (suc k)) 1 ≡ pos k
unfolding less
less_one k = ground arith

suc-is_done : (k : ℕ) → is_done (pos (suc k)) ≡ false
unfolding is_done
suc-is_done k = ground arith

-- There is another parameter.
pub parse-next :
    (n : ℕ) (r : List (List ℕ)) (a rest : List ℕ)
    → check_token a ≡ none
    → parse (at content (pos (suc (suc n))) (pos (length a)) r (a ++ (crlf ++ rest)))
      ≡ parse (at parm (pos (suc n)) (pos (length a)) (r ++ (a ∷ [])) rest)
unfolding on_move on_last
parse-next n r a rest h =
    parse-whole (pos (suc (suc n))) r a rest h
    ∙ rw (less_one (suc n), suc-is_done n, take-length a (crlf ++ rest), drop-line a rest) refl

-- It was the last.
pub parse-last :
    (r : List (List ℕ)) (a rest : List ℕ)
    → check_token a ≡ none
    → parse (at content (pos 1) (pos (length a)) r (a ++ (crlf ++ rest)))
      ≡ complete (at star (pos 0) (pos (length a)) (r ++ (a ∷ [])) rest)
unfolding on_move on_last less is_done
parse-last r a rest h =
    parse-whole (pos 1) r a rest h ∙ rw (take-length a (crlf ++ rest), drop-line a rest) refl
