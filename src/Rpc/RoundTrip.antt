-- ===== src/Rpc/RoundTrip.antt =====
-- spe_rpc.c: a request that a client sends is the request that the parser hands over.
use mathlib.Core.List.{append_assoc}
use spe.Base.{ℕ, suc, ◌<◌, ◌^◌, ◌≡◌, ap, ◌∙◌, List, [], ◌∷◌, ◌++◌, arith, length, All}
use spe.Base.Ints.{ℤ, pos}
use spe.Rpc.{crlf, star, parm, complete, parse}
use spe.Rpc.Request.{
  encode_params, encode, IsPlain, at, parse-star, parse-parm, parse-next, parse-last,
}

parse-params :
    (d : ℤ) (r : List (List ℕ)) (a : List ℕ) (args : List (List ℕ)) (rest : List ℕ)
    → IsPlain a
    → All IsPlain args
    → (d' : ℤ) × (parse (at parm (pos (suc (length args))) d r (encode_params (a ∷ args) rest))
        ≡ complete (at star (pos 0) d' (r ++ (a ∷ args)) rest))
unfolding encode_params
parse-params d r a [] rest h hs = (
  pos (length a),
  parse-parm (pos 1) d r (length a) (a ++ (crlf ++ rest)) h.fits ∙ parse-last r a rest h.one_line,
)
parse-params d r a (b ∷ args) rest h hs =
    let (d', e) = parse-params (pos (length a)) (r ++ (a ∷ [])) b args rest hs.0 hs.1 in
    let behind : List ℕ = encode_params (b ∷ args) rest in
    (
      d',
      parse-parm (pos (suc (suc (length args)))) d r (length a) (a ++ (crlf ++ behind)) h.fits
          ∙ parse-next (length args) r a behind h.one_line
          ∙ e
          ∙ ap (λ q. complete (at star (pos 0) d' q rest)) (append_assoc r (a ∷ []) (b ∷ args)),
    )

-- A request of at least one and fewer than 2^31 parameters, none of which holds a line end or 2^31 bytes or more, with any bytes behind it: from the
-- start of a request the parser hands over exactly these parameters, in order, and keeps the bytes behind them for the next request.
pub parse-encode :
    (l d : ℤ) (a : List ℕ) (args : List (List ℕ)) (rest : List ℕ)
    → IsPlain a
    → All IsPlain args
    → length (a ∷ args) < 2 ^ 31
    → (d' : ℤ) × (parse (at star l d [] (encode (a ∷ args) rest))
        ≡ complete (at star (pos 0) d' (a ∷ args) rest))
unfolding encode
parse-encode l d a args rest h hs few =
    let (d', e) = parse-params d [] a args rest h hs in
    (
      d',
      parse-star l d [] (length (a ∷ args)) (encode_params (a ∷ args) rest) (omega arith) few ∙ e,
    )
