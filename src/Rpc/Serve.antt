-- ===== src/Rpc/Serve.antt =====
-- spe_rpc.c: parser and commands together, for handlers that answer by `SpeRPCDone` before they
-- return. Behind each answer the parser runs again.
use spe.Base.{ℕ, zero, suc, ◌<◌, ◌^◌, Option, none, some, List, [], ◌∷◌, ◌++◌, length, All, ◌>>=◌}
use spe.Buf.Text.Search.{before_nul}
use spe.Rpc.{Rpc, Verdict, complete, parse}
use spe.Rpc.Request.{encode, IsPlain}
use spe.Rpc.Answer.{
  Response, nothing, err, not_supported, written_of, rpc_done, Processed, called, refused,
  rpc_process,
}

-- A handler of a command: the response it sets, by the parameters.
abbrev pub Handler : Type 0
Handler = List (List ℕ) → Response

abbrev no_response : Response
no_response = record { kind = nothing; msg = [] }

unfoldable pub on_processed : Processed Handler → Option (List ℕ × Rpc)
on_processed (called h r s) = rpc_done (h s.request) s
on_processed (refused out s) = some (out, s)

module _ (commands : List ℕ → Option Handler) where
  pub answered :
      (List ℕ → Rpc → Option (List ℕ × Verdict)) → List ℕ → Verdict → Option (List ℕ × Verdict)
  answered again out (complete s) =
      rpc_process commands no_response s >>= on_processed >>= λ d. again (out ++ d.0) d.1
  answered again out v = some (out, v)

  -- `n` requests are answered, then the parser runs once more.
  pub serve : ℕ → List ℕ → Rpc → Option (List ℕ × Verdict)
  unfolding answered
  serve zero out s = some (out, parse s)
  serve (suc n) out s = answered (serve n) out (parse s)

  -- What the command answers, by its name and its parameters.
  response : Option Handler → List (List ℕ) → Response
  response (some h) args = h args
  response none args = record { kind = err; msg = not_supported ∷ [] }

  pub reply : List ℕ → List (List ℕ) → Option (List ℕ)
  unfolding response
  reply a args =
      let r : Response = response (commands (before_nul a)) (a ∷ args) in written_of r.kind r.msg

  pub replies : List (List ℕ × List (List ℕ)) → Option (List ℕ)
  replies [] = some []
  replies ((a, args) ∷ qs) = do out ← reply a args; rest ← replies qs; some (out ++ rest)

-- Requests, one behind the other.
pub encode_all : List (List ℕ × List (List ℕ)) → List ℕ → List ℕ
encode_all [] rest = rest
encode_all ((a, args) ∷ qs) rest = encode (a ∷ args) (encode_all qs rest)

abbrev pub IsSendable : List ℕ × List (List ℕ) → Type 0
IsSendable (a, args) = IsPlain a × All IsPlain args × (length (a ∷ args) < 2 ^ 31)
