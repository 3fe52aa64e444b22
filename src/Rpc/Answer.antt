-- ===== src/Rpc/Answer.antt =====
-- src/spe_rpc.c and src/spe_rpc.h: `rpcProcess`, which looks the command up, `SpeRPCDone`, which
-- answers, and the calls that set a server up.
use spe.Base.{ℕ, Bool, true, false, Option, none, some, List, [], ◌∷◌, ◌++◌, ◌>>=◌, get_elem?}
use spe.Base.Ints.Decimal.{decimal_long}
use spe.Base.Ints.Long.{strtol}
use spe.Buf.Text.Search.{before_nul}
use spe.Rpc.{crlf, star, Rpc}
use spe.Base.Ints.{pos}

-- SPE_RPCMSG_*
pub data ResponseType : Type 0 where
  nothing ok err num bulk mbulk : ResponseType

-- `speRPCResp_t`
pub record Response : Type 0 where
  pub kind : ResponseType
  pub msg : List (List ℕ)

-- "Command Not Support"
abbrev pub not_supported : List ℕ
not_supported =
    67 ∷ 111 ∷ 109 ∷ 109 ∷ 97 ∷ 110 ∷ 100 ∷ 32 ∷ 78 ∷ 111 ∷ 116 ∷ 32 ∷ 83 ∷ 117 ∷ 112 ∷ 112 ∷ 111
    ∷ 114 ∷ 116 ∷ []

-- What is written of a message of a kind.
unfoldable pub line_of : ResponseType → List ℕ → List ℕ
line_of ok x = 43 ∷ (x ++ crlf)
line_of err x = 45 ∷ (x ++ crlf)
line_of num x = 58 ∷ (decimal_long (strtol (before_nul x)) ++ crlf)
line_of _ x = []

-- The kinds that look at `msg->Data[0]`, which has to be there.
unfoldable pub written_of : ResponseType → List (List ℕ) → Option (List ℕ)
unfolding line_of
written_of nothing m = some []
written_of bulk m = some []
written_of mbulk m = some []
written_of k m = get_elem? m 0 >>= λ x. some (line_of k x)

-- `SpeRPCDone`: the response is written and flushed, the request is emptied, and the connection reads
-- again. The result is what is written, and the state.
unfoldable pub rpc_done : Response → Rpc → Option (List ℕ × Rpc)
unfolding written_of
rpc_done r s = do out ← written_of r.kind r.msg; some (out, record s { request = [] })

-- What `rpcProcess` comes to: the handler of the command is called, with an empty message, or the
-- command is answered as unknown.
pub data Processed (H : Type 0) : Type 0 where
  called : H → Response → Rpc → Processed H
  refused : List ℕ → Rpc → Processed H

unfoldable pub on_command : {H : Type 0} → Option H → Response → Rpc → Option (Processed H)
unfolding rpc_done
on_command (some h) r s = some (called h (record r { msg = [] }) s)
on_command none r s =
    rpc_done (record { kind = err; msg = not_supported ∷ [] }) s >>= λ d. some (refused d.0 d.1)

-- The name of the command is `request->Data[0]->Data`, a C string.
unfoldable pub rpc_process :
    {H : Type 0} → (List ℕ → Option H) → Response → Rpc → Option (Processed H)
unfolding on_command
rpc_process commands r s = do
  name ← get_elem? s.request 0
  on_command (commands (before_nul name)) r s

-- What `rpcHandler` allocates for a new connection, which it is given.
pub data Resource : Type 0 where
  connection rpc_conn request_bufs message_bufs : Resource

-- `rpcHandler`, by the three allocations: the state of the new connection, or what is freed.
unfoldable pub rpc_handler : Bool → Bool → Bool → Option Rpc × List Resource
rpc_handler true true true = (
  some (record { status = star; param_left = pos 0; data_left = pos 0; request = []; buffer = [] }),
  [],
)
rpc_handler true true false = (none, request_bufs ∷ rpc_conn ∷ connection ∷ [])
rpc_handler true false m = (none, rpc_conn ∷ connection ∷ [])
rpc_handler false q m = (none, connection ∷ [])
