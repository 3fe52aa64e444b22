-- ===== src/Tests/Rpcs.antt =====
-- spe_rpc.c at concrete inputs.
use spe.Base.{ℕ, ◌≡◌, refl, some, List, [], ◌∷◌, ◌++◌, arith, length, ◌≤◌, true, replicate}
use spe.Base.Ints.{ℤ, pos}
use spe.Buf.Text.Search.{before_nul}
use spe.Map.{create, get}
use spe.Rpc.Commands.{rpc_maplen, registe_handler, registe_handler-unknown}
use spe.Rpc.{crlf, star, begins_with, check_token, complete, parse}
use spe.Rpc.Line.{more}
use spe.Rpc.Pieces.{arrive, together, arrive-together}
use spe.Rpc.Ends.{Ends, parse-Ends}
use spe.Rpc.Request.{encode, IsPlain, at}
use spe.Rpc.RoundTrip.{parse-encode}
use spe.Rpc.Embedded.{parse-embedded}
use spe.Rpc.Answer.{nothing, not_supported, refused, rpc_process}

abbrev ping : List ℕ
ping = 112 ∷ 105 ∷ 110 ∷ 103 ∷ []

-- "a", CR, "b": a CR alone ends no line.
abbrev odd : List ℕ
odd = 97 ∷ 13 ∷ 98 ∷ []

ping-IsPlain : IsPlain ping
unfolding check_token begins_with
ping-IsPlain = record { one_line = refl; fits = omega arith }

odd-IsPlain : IsPlain odd
unfolding check_token begins_with
odd-IsPlain = record { one_line = refl; fits = omega arith }

parse-encode_example :
    (d : ℤ) × (parse (at star (pos 0) (pos 0) [] (encode (ping ∷ odd ∷ []) (42 ∷ [])))
      ≡ complete (at star (pos 0) d (ping ∷ odd ∷ []) (42 ∷ [])))
parse-encode_example =
    parse-encode (pos 0) (pos 0) ping (odd ∷ []) (42 ∷ []) ping-IsPlain (odd-IsPlain, tt)
      (omega arith)

-- "*1", CR / LF, "$4", CR, LF, "pi" / "ng", CR, LF
abbrev three_pieces : List (List ℕ)
three_pieces =
    (42 ∷ 49 ∷ 13 ∷ [])
    ∷ (10 ∷ 36 ∷ 52 ∷ 13 ∷ 10 ∷ 112 ∷ 105 ∷ [])
    ∷ (110 ∷ 103 ∷ 13 ∷ 10 ∷ [])
    ∷ []

arrive-together_example :
    arrive three_pieces (parse (at star (pos 0) (pos 0) [] []))
    ≡ parse (more (together three_pieces) (at star (pos 0) (pos 0) [] []))
arrive-together_example = arrive-together three_pieces (at star (pos 0) (pos 0) [] [])

parse-Ends_example : Ends (parse (at star (pos 0) (pos 0) [] (encode (ping ∷ []) (42 ∷ []))))
parse-Ends_example = parse-Ends (at star (pos 0) (pos 0) [] (encode (ping ∷ []) (42 ∷ [])))

parse-embedded_example :
    parse (at star (pos 0) (pos 0) [] (encode ((ping ++ (crlf ++ odd)) ∷ []) []))
    ≡ complete (at star (pos 0) (pos 3) ((ping ++ crlf) ∷ odd ∷ []) [])
parse-embedded_example =
    parse-embedded (pos 0) (pos 0) ping odd [] ping-IsPlain.one_line odd-IsPlain.one_line
      (omega arith)

abbrev two_requests : List (List ℕ × List (List ℕ))
two_requests = (ping, odd ∷ []) ∷ (odd, []) ∷ []

-- A name of 20 bytes.
abbrev long_name : List ℕ
long_name = replicate 20 97

long_name-length : 16 ≤ length (before_nul long_name)
unfolding before_nul
long_name-length = omega arith

registe_handler-unknown_example :
    ((registe_handler (create rpc_maplen) (before_nul long_name) 1 (some 1000)).0 ≡ true)
    × (rpc_process
          (get (registe_handler (create rpc_maplen) (before_nul long_name) 1 (some 1000)).1)
          (record { kind = nothing; msg = [] })
          (at star (pos 0) (pos 0) (long_name ∷ []) [])
        ≡ some (refused (45 ∷ (not_supported ++ crlf)) (at star (pos 0) (pos 0) [] [])))
registe_handler-unknown_example =
    registe_handler-unknown (create rpc_maplen) long_name [] 1 1000
      (record { kind = nothing; msg = [] }) star (pos 0) (pos 0) [] long_name-length (λ i. tt)
