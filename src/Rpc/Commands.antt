-- ===== src/Rpc/Commands.antt =====
-- src/spe_rpc.c, `SpeRPCCreate`, `SpeRPCDestroy` and `SpeRPCRegisteHandler`: the table of commands, which
-- is a map of spe_map.c. A handler is the number of its address.
use spe.Base.{
  ℕ, ◌≤◌, ◌≡◌, refl, ap, Bool, true, false, Option, none, some, List, [], ◌∷◌, ◌++◌, ◌>>=◌, length,
  All,
}
use spe.Base.Ints.{ℤ}
use spe.Buf.Text.Search.{before_nul}
use spe.Map.{Map, SetCode, map_ok, map_error, map_conflict, create, set, get}
use spe.Map.Long.{IsCut, get-set_long}
use spe.Rpc.{crlf, ParseStatus}
use spe.Rpc.Request.{at}
use spe.Rpc.Answer.{
  Response, not_supported, line_of, written_of, rpc_done, refused, on_command, rpc_process,
}

-- SPE_RPC_MAPLEN
abbrev pub rpc_maplen : ℕ
rpc_maplen = 31

-- `SpeRPCCreate`, by the two allocations and what `SpeServerRegister` gives, NULL included.
unfoldable pub rpc_create : Bool → Bool → Option ℕ → Option (Map × Option ℕ)
rpc_create true true server = some (create rpc_maplen, server)
rpc_create true false server = none
rpc_create false b server = none

-- `SpeRPCDestroy`, by the calls that it makes.
unfoldable pub rpc_destroy : {W : Type 0} → (W → W) → (W → W) → (W → W) → Bool → W → W
rpc_destroy map_destroy unregister free_rpc true w = free_rpc (unregister (map_destroy w))
rpc_destroy map_destroy unregister free_rpc false w = w

-- rc == SPE_MAP_OK
unfoldable pub is_ok : SetCode → Bool
is_ok map_ok = true
is_ok map_error = false
is_ok map_conflict = false

-- `SpeRPCRegisteHandler`, with what calloc gives.
unfoldable pub registe_handler : Map → List ℕ → ℕ → Option ℕ → Bool × Map
unfolding is_ok
registe_handler m cmd handler alloc =
    let r : SetCode × Map = set m cmd handler alloc in (is_ok r.0, r.1)

-- A command whose name, up to its first NUL, has 16 bytes or more: when calloc succeeds, `SpeRPCRegisteHandler` reports success, and a request of
-- the command is answered as unknown. No item of the map has a key of more than 15 bytes before, as none has that `SpeMapSet` makes.
pub registe_handler-unknown :
    (m : Map) (name : List ℕ) (args : List (List ℕ)) (handler a : ℕ) (resp : Response)
    (t : ParseStatus) (l d : ℤ) (b : List ℕ)
    → 16 ≤ length (before_nul name)
    → ((i : ℕ) → All IsCut (m.chains i))
    → ((registe_handler m (before_nul name) handler (some a)).0 ≡ true)
      × (rpc_process
            (get (registe_handler m (before_nul name) handler (some a)).1)
            resp
            (at t l d (name ∷ args) b)
          ≡ some (refused (45 ∷ (not_supported ++ crlf)) (at t l d [] b)))
unfolding registe_handler is_ok rpc_process on_command rpc_done written_of line_of
registe_handler-unknown m name args handler a resp t l d b h cut =
    let (done, missing, _) = get-set_long m (before_nul name) handler a h cut in
    (ap is_ok done, rw (missing, ◌>>=◌) refl)
