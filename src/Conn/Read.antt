-- ===== src/Conn/Read.antt =====
-- src/spe_conn.c, the reads: `spe_conn_read`, `spe_conn_readbytes`, `spe_conn_read_until`, and the
-- handler that goes on with them.
use spe.Base.{
  ℕ, Bool, true, false, not, Option, none, some, List, [], ◌∷◌, ltb, leb, if◌then◌else◌, ◌>>=◌,
  ◌&&◌, ◌||◌, ◌==◌, length,
}
use spe.Base.Words.{add_u32}
use spe.Base.System.{eintr, eagain, ReadAnswer}
use spe.Buf.{Buf}
use spe.Buf.Text.{search}
use spe.Buf.Fd.{ReadCode, buf_error, failed, closed, count, read_fd_append}
use spe.Buf.Transfer.{transfer, transfer_all}
use spe.Conn.{
  read_normal, Reading, read_none, read_any, read_until, read_bytes, Conn, for_read, Loop,
  start_timer, stop_timer,
}

-- BUF_SIZE
abbrev pub buf_size : ℕ
buf_size = 1024

-- What a read waits for.
pub data Want : Type 0 where
  anything : Want
  until : List ℕ → Want
  bytes_of_number : ℕ → Want

-- The flags that `spe_conn_read_sync` and `read_normal` set after the read; SPE_BUF_ERROR is -2.
unfoldable pub sync_flags : ReadCode → Conn → Conn
sync_flags (failed eintr) c = c
sync_flags (failed eagain) c = c
sync_flags (failed e) c = record c { is_error = true }
sync_flags buf_error c = record c { is_error = true }
sync_flags closed c = record c { is_closed = true }
sync_flags (count n) c = c

unfoldable pub normal_flags : ReadCode → Conn → Conn
normal_flags buf_error c = c
normal_flags (failed eagain) c = c
normal_flags (failed e) c = record c { is_error = true }
normal_flags closed c = record c { is_closed = true }
normal_flags (count n) c = c

module _ (realloc : List ℕ → ℕ → Option (List ℕ)) where
  -- The first `n` bytes of `_read_buffer` go to `buffer`.
  unfoldable pub hand_over : Conn → ℕ → Option (Option Conn)
  hand_over c n = do
    r ← transfer realloc c.buffer c.read_buffer n
    some (some (record c { buffer = r.0; read_buffer = r.1 }))

  unfoldable pub hand_over_all : Conn → Option Conn
  hand_over_all c = do
    r ← transfer_all realloc c.buffer c.read_buffer
    some (record c { buffer = r.0; read_buffer = r.1 })

  -- The test for what is wanted, and the bytes to the user; `none` inside: not there yet.
  unfoldable pub deliver : Want → Conn → Option (Option Conn)
  deliver anything c =
      if ltb 0 c.read_buffer.len then (hand_over_all c >>= λ c'. some (some c')) else some none
  deliver (bytes_of_number n) c = if leb n c.read_buffer.len then hand_over c n else some none
  deliver (until delim) c = search c.read_buffer delim >>= λ p. elim p [
    | none ↦ some none
    | some pos ↦ hand_over c (add_u32 pos (length delim))
  ]

  module _ {W : Type 0} (loop : Loop W) where
    -- `spe_conn_read_sync` behind its read
    unfoldable pub sync_end : Conn → W → Option (Bool × Conn × W)
    unfolding hand_over_all
    sync_end c w =
        if c.is_error || c.is_closed
        then (hand_over_all c >>= λ c'. some (true, c', loop.schedule w c'.post_read_task))
        else some (false, c, w)

    unfoldable pub read_sync : (ℕ → ReadAnswer) → Conn → W → Option (Bool × Conn × W)
    unfolding sync_end sync_flags
    read_sync answer c w = do
      r ← read_fd_append realloc answer buf_size c.read_buffer
      sync_end (sync_flags r.0 (record c { read_buffer = r.1 })) w

    unfoldable pub read_async : Reading → Conn → W → Conn × W
    unfolding start_timer
    read_async kind c w = (
      record c { read_timeout = false; reading = kind },
      start_timer loop
          (loop.enable (loop.set_handler w c.read_task read_normal) c.fd for_read c.read_task)
          c.read_task c.read_expire_time,
    )

    -- `_delim`, `_rbytes` and the type that is kept for the handler
    unfoldable pub await : Want → Conn → W → Conn × W
    unfolding read_async
    await anything c w = read_async read_any c w
    await (until delim) c w = read_async read_until (record c { delim = delim }) w
    await (bytes_of_number n) c w = read_async read_bytes (record c { rbytes = n }) w

    unfoldable pub settle : Want → Conn → W → Option Conn → Bool × Conn × W
    unfolding await
    settle want c w (some c') = (true, c', loop.schedule w c'.post_read_task)
    settle want c w none = (true, (await want c w).0, (await want c w).1)

    -- A read of each kind behind its first test.
    unfoldable pub go_on : Want → Bool × Conn × W → Option (Bool × Conn × W)
    unfolding settle deliver
    go_on want (true, c, w) = some (true, c, w)
    go_on want (false, c, w) = deliver want c >>= λ d. some (settle want c w d)

    unfoldable pub request : Want → (ℕ → ReadAnswer) → Conn → W → Option (Bool × Conn × W)
    unfolding read_sync go_on
    request want answer c w =
        if c.is_closed || c.is_error
        then some (false, c, w)
        else (read_sync answer c w >>= go_on want)

    -- `spe_conn_read`
    unfoldable pub read : (ℕ → ReadAnswer) → Conn → W → Option (Bool × Conn × W)
    unfolding request
    read answer c w = request anything answer c w

    -- `spe_conn_readbytes`
    unfoldable pub readbytes : ℕ → (ℕ → ReadAnswer) → Conn → W → Option (Bool × Conn × W)
    unfolding request
    readbytes n answer c w =
        if n == 0 then some (false, c, w) else request (bytes_of_number n) answer c w

    -- `spe_conn_read_until`; `none` is a NULL delimiter.
    unfoldable pub readuntil :
        Option (List ℕ) → (ℕ → ReadAnswer) → Conn → W → Option (Bool × Conn × W)
    unfolding request
    readuntil none answer c w = some (false, c, w)
    readuntil (some delim) answer c w = request (until delim) answer c w

    -- `end_out` of `read_normal`
    unfoldable pub end_read : Conn → W → Conn × W
    unfolding stop_timer
    end_read c w = (
      record c { reading = read_none },
      loop.schedule (stop_timer loop (loop.disable w c.fd for_read) c.read_task c.read_expire_time)
          c.post_read_task,
    )

    -- The tests on `_read_type`.
    unfoldable pub deliver_reading : Reading → Conn → Option (Option Conn)
    unfolding deliver
    deliver_reading read_until c = deliver (until c.delim) c
    deliver_reading read_bytes c = deliver (bytes_of_number c.rbytes) c
    deliver_reading read_any c = deliver anything c
    deliver_reading read_none c = some none

    unfoldable pub check_end : Conn → W → Option Conn → Conn × W
    unfolding end_read
    check_end c w (some c') = end_read c' w
    check_end c w none = if c.is_closed || c.is_error then end_read c w else (c, w)

    -- The test of the loop of reads: the result of a read that was interrupted is dropped.
    unfoldable pub after_read :
        (Buf → Option (Option (ReadCode × Buf))) → ReadCode × Buf → Option (Option (ReadCode × Buf))
    after_read again (failed eintr, b) = again b
    after_read again (code, b) = some (some (code, b))

    -- The loop of reads; `none` inside: every answer was EINTR.
    unfoldable pub read_again : List (ℕ → ReadAnswer) → Buf → Option (Option (ReadCode × Buf))
    unfolding after_read
    read_again [] b = some none
    read_again (answer ∷ answers) b =
        read_fd_append realloc answer buf_size b >>= after_read (λ b'. read_again answers b')

    unfoldable pub read_normal_on : Conn → W → Option (ReadCode × Buf) → Option (Option (Conn × W))
    unfolding deliver_reading check_end normal_flags
    read_normal_on c w none = some none
    read_normal_on c w (some (code, b)) =
        let c' : Conn = normal_flags code (record c { read_buffer = b }) in
        deliver_reading c'.reading c' >>= λ d. some (some (check_end c' w d))

    -- `read_normal`
    unfoldable pub on_readable : List (ℕ → ReadAnswer) → Conn → W → Option (Option (Conn × W))
    unfolding read_again read_normal_on
    on_readable answers c w =
        if not (c.read_expire_time == 0) && loop.timed_out w c.read_task
        then some (some (end_read (record c { read_timeout = true }) w))
        else (read_again answers c.read_buffer >>= read_normal_on c w)
