-- ===== src/Conn/Write.antt =====
-- src/spe_conn.c, the writes: `spe_conn_write`, `spe_conn_flush`, and the handler that goes on.
use spe.Base.{
  ℕ, Bool, true, false, not, Option, some, List, ◌++◌, if◌then◌else◌, ◌>>=◌, ◌&&◌, ◌||◌, ◌==◌, take,
  read_at,
}
use spe.Base.System.{epipe, WriteAnswer, wrote, write_failed}
use spe.Buf.{append, lconsume}
use spe.Conn.{write_normal, Conn, for_write, Loop, start_timer, stop_timer}

-- `spe_conn_write`
unfoldable pub write : (List ℕ → ℕ → Option (List ℕ)) → Conn → List ℕ → Option (Bool × Conn)
write realloc c src =
    if c.is_closed || c.is_error
    then some (false, c)
    else (append realloc c.write_buffer src >>= λ r. some (r.0, record c { write_buffer = r.1 }))

-- The result of the write: an error sets a flag (inside, `none`), and bytes that were taken are
-- consumed. `sent` is what the peer got, and grows.
unfoldable pub on_written : Conn → List ℕ → List ℕ → WriteAnswer → Option (Conn × List ℕ × Bool)
on_written c sent xs (wrote k) = lconsume c.write_buffer k >>= λ b.
    some (record c { write_buffer = b }, sent ++ take k xs, b.len == 0)
on_written c sent xs (write_failed epipe) = some (record c { is_closed = true }, sent, true)
on_written c sent xs (write_failed e) = some (record c { is_error = true }, sent, true)

-- One write of the whole `_write_buffer`; the last part tells whether to stop.
unfoldable pub write_once : (List ℕ → WriteAnswer) → Conn → List ℕ → Option (Conn × List ℕ × Bool)
unfolding on_written
write_once answer c sent = do
  xs ← read_at c.write_buffer.mem c.write_buffer.off c.write_buffer.len
  on_written c sent xs (answer xs)

module _ {W : Type 0} (loop : Loop W) where
  -- `end_out` of `write_normal`
  unfoldable pub end_write : Conn → W → Conn × W
  unfolding stop_timer
  end_write c w = (
    record c { writing = false },
    loop.schedule (stop_timer loop (loop.disable w c.fd for_write) c.write_task c.write_expire_time)
        c.post_write_task,
  )

  -- `write_normal`
  unfoldable pub on_writable :
      (List ℕ → WriteAnswer) → Conn → W → List ℕ → Option (Conn × W × List ℕ)
  unfolding write_once end_write
  on_writable answer c w sent =
      if not (c.write_expire_time == 0) && loop.timed_out w c.write_task
      then (let r : Conn × W = end_write (record c { write_timeout = true }) w in
          some (r.0, r.1, sent))
      else (write_once answer c sent >>= λ o.
          let r : Conn × W = if o.2 then end_write o.0 w else (o.0, w) in some (r.0, r.1, o.1))

  -- What follows the write of `spe_conn_flush`.
  unfoldable pub write_async : Conn → W → Conn × W
  unfolding start_timer
  write_async c w = (
    record c { write_timeout = false; writing = true },
    start_timer loop
        (loop.enable (loop.set_handler w c.write_task write_normal) c.fd for_write c.write_task)
        c.write_task c.write_expire_time,
  )

  -- `spe_conn_flush`
  unfoldable pub flush :
      (List ℕ → WriteAnswer) → Conn → W → List ℕ → Option (Bool × Conn × W × List ℕ)
  unfolding write_once write_async
  flush answer c w sent =
      if c.is_closed || c.is_error
      then some (false, c, w, sent)
      else (write_once answer c sent >>= λ o.
          let r : Conn × W =
            if o.2 then (o.0, loop.schedule w o.0.post_write_task) else write_async o.0 w in
          some (true, r.0, r.1, o.1))
