-- ===== src/Rpc.antt =====
-- src/spe_rpc.c: the parser of requests, which come as `*<number>` and, for each parameter,
-- `$<length>` and the bytes, every line with CR LF behind it. The file calls the buffers by former
-- names (SpeBufLConsume is spe_buf_lconsume); they stand here as the lists of their bytes.
pub mod Token
pub mod Line
pub mod Pieces
pub mod Ends
pub mod Request
pub mod RoundTrip
pub mod Embedded
pub mod Answer
pub mod Serve
pub mod Commands
use spe.Base.{
  ℕ, zero, suc, ◌+◌, ◌-◌, ◌≡◌, Bool, true, false, not, ◌||◌, ◌&&◌, Option, none, some, List, [],
  ◌∷◌, ◌++◌, ltb, leb, ◌==◌, if◌then◌else◌, ◌>>=◌, length, take, drop,
}
use mathlib.Core.Option
use spe.Base.Ints.{ℤ, pos, negsuc, is_not_positive, atoi}

abbrev pub cr : ℕ
cr = 13

abbrev pub lf : ℕ
lf = 10

abbrev pub crlf : List ℕ
crlf = cr ∷ lf ∷ []

-- RPC_PARSE_STAR, RPC_PARSE_PARM, RPC_PARSE_DATA
pub data ParseStatus : Type 0 where
  star parm content : ParseStatus

-- What the parser keeps of `speRPCConn_t`, with the bytes of `conn->ReadBuffer`.
pub record Rpc : Type 0 where
  pub status : ParseStatus
  pub param_left : ℤ
  pub data_left : ℤ
  pub request : List (List ℕ)
  pub buffer : List ℕ

unfoldable pub begins_with : ℕ → List ℕ → Bool
begins_with k [] = false
begins_with k (c ∷ cs) = c == k

-- The index of the first CR LF; `none` is -1.
unfoldable pub check_token : List ℕ → Option ℕ
unfolding begins_with
check_token [] = none
check_token (c ∷ cs) =
    if (c == cr) && begins_with lf cs then some 0 else Option.map suc (check_token cs)

-- The `int`s of the parser against an index.
unfoldable pub is_negative : ℤ → Bool
is_negative (pos n) = false
is_negative (negsuc n) = true

unfoldable pub is_under : ℤ → ℕ → Bool
is_under (pos n) k = ltb n k
is_under (negsuc n) k = true

unfoldable pub is_over : ℤ → ℕ → Bool
is_over (pos n) k = ltb k n
is_over (negsuc n) k = false

unfoldable pub less : ℤ → ℕ → ℤ
less (pos n) k = if leb k n then pos (n - k) else negsuc (k - n - 1)
less (negsuc n) k = negsuc (n + k)

unfoldable pub is_done : ℤ → Bool
is_done (pos n) = n == 0
is_done (negsuc n) = false

-- What a line does: the loop goes on, the connection is given up (`errout`), the request is complete,
-- or the number overflows an `int`, which is undefined.
pub data Move : Type 0 where
  onward : Rpc → Move
  errout : Move
  finished : Rpc → Move
  overflow : Move

-- `Data[pos] = 0; atoi(Data + 1)`
unfoldable pub number_at : List ℕ → ℕ → Option ℤ
number_at xs p = atoi (take (p - 1) (drop 1 xs))

unfoldable pub on_number : (ℤ → Bool) → (ℤ → Rpc) → Option ℤ → Move
on_number refused use_it none = overflow
on_number refused use_it (some n) = if refused n then errout else onward (use_it n)

unfoldable pub on_star : Rpc → ℕ → Move
unfolding begins_with number_at on_number
on_star s p =
    if ltb p 2 || not (begins_with 42 s.buffer)
    then errout
    else on_number is_not_positive
        (λ n. record s { param_left = n; buffer = drop (p + 2) s.buffer; status = parm })
        (number_at s.buffer p)

unfoldable pub on_parm : Rpc → ℕ → Move
unfolding begins_with number_at on_number is_negative
on_parm s p =
    if ltb p 2 || not (begins_with 36 s.buffer)
    then errout
    else on_number is_negative
        (λ n. record s { data_left = n; buffer = drop (p + 2) s.buffer; status = content })
        (number_at s.buffer p)

-- The parameter is whole.
unfoldable pub on_last : Rpc → ℕ → Move
unfolding less is_done
on_last s p =
    let left : ℤ = less s.param_left 1 in
    let s' : Rpc = record s {
      request = s.request ++ (take p s.buffer ∷ []);
      buffer = drop (p + 2) s.buffer;
      param_left = left;
    } in
    if is_done left
    then finished (record s' { status = star })
    else onward (record s' { status = parm })

-- A line that ends before the parameter does is added to the request as it is, CR LF included.
unfoldable pub on_part : Rpc → ℕ → Move
unfolding less
on_part s p = onward (record s {
  request = s.request ++ (take (p + 2) s.buffer ∷ []);
  buffer = drop (p + 2) s.buffer;
  data_left = less s.data_left (p + 2);
})

unfoldable pub on_content : Rpc → ℕ → Move
unfolding is_under is_over on_part on_last
on_content s p =
    if is_under s.data_left p
    then errout
    else if is_over s.data_left p
    then on_part s p
    else on_last s p

unfoldable pub on_line : ParseStatus → Rpc → ℕ → Move
unfolding on_star on_parm on_content
on_line star s p = on_star s p
on_line parm s p = on_parm s p
on_line content s p = on_content s p

-- What `rpcParse` comes to: it asks for more bytes (SpeConnRead), has given up the connection, or has
-- a request for `rpcProcess`.
pub data Verdict : Type 0 where
  waiting : Rpc → Verdict
  dropped : Verdict
  complete : Rpc → Verdict
  undefined : Verdict
  out_of_fuel : Verdict

unfoldable pub on_move : (Rpc → Verdict) → Move → Verdict
on_move again (onward s) = again s
on_move again errout = dropped
on_move again (finished s) = complete s
on_move again overflow = undefined

unfoldable pub on_token : (Rpc → Verdict) → Rpc → Option ℕ → Verdict
unfolding on_move on_line
on_token again s none = waiting s
on_token again s (some p) = on_move again (on_line s.status s p)

-- The loop of `rpcParse`. Each line takes at least two bytes from the buffer.
unfoldable pub parse_loop : ℕ → Rpc → Verdict
unfolding on_token check_token
parse_loop zero s = out_of_fuel
parse_loop (suc f) s = on_token (parse_loop f) s (check_token s.buffer)

unfoldable pub parse : Rpc → Verdict
unfolding parse_loop
parse s = parse_loop (suc (length s.buffer)) s

-- `rpcParse`: a connection that is closed or broken is given up.
unfoldable pub rpc_parse : Bool → Bool → Rpc → Verdict
unfolding parse
rpc_parse is_closed is_error s = if is_closed || is_error then dropped else parse s
