-- ===== src/Conn/Flush.antt =====
-- src/spe_conn.c, the writes: no byte is lost or sent twice.
use spe.Base.{ℕ, ◌≡◌, Bool, true, false, Option, some, List, ◌++◌, length, ◌==◌}
use spe.Base.System.{
  eintr, eagain, epipe, einprogress, other_errno, WriteAnswer, wrote, write_failed,
}
use spe.Buf.{Buf}
use spe.Buf.Total.{Owns}
use spe.Conn.{Conn, Loop}
use spe.Conn.Write.{end_write, write_async}

-- The connection behind a write of `xs`: what the peer has now and what is left make up what it had and
-- `xs`. The write is over if nothing is left, or with the flag that the error sets.
abbrev pub WroteOnce : Conn → List ℕ → List ℕ → WriteAnswer → Conn × List ℕ × Bool → Type 0
WroteOnce c sent xs (wrote k) o =
    (rest : List ℕ) × (o.1 ++ rest ≡ sent ++ xs)
    × (o.2 ≡ (length rest == 0))
    × (b : Buf) × (o.0 ≡ record c { write_buffer = b })
    × Owns b rest
WroteOnce c sent xs (write_failed epipe) o = o ≡ (record c { is_closed = true }, sent, true)
WroteOnce c sent xs (write_failed eintr) o = o ≡ (record c { is_error = true }, sent, true)
WroteOnce c sent xs (write_failed eagain) o = o ≡ (record c { is_error = true }, sent, true)
WroteOnce c sent xs (write_failed einprogress) o = o ≡ (record c { is_error = true }, sent, true)
WroteOnce c sent xs (write_failed other_errno) o = o ≡ (record c { is_error = true }, sent, true)

module _ {W : Type 0} (loop : Loop W) where
  -- The user's task is scheduled if the write is over; else the connection waits until it can write.
  abbrev pub Flushed : Conn → List ℕ → Bool → W → Option (Bool × Conn × W × List ℕ) → Type 0
  Flushed c now true w r = r ≡ some (true, c, loop.schedule w c.post_write_task, now)
  Flushed c now false w r = r ≡ some (true, (write_async loop c w).0, (write_async loop c w).1, now)

  -- What the handler does behind its write.
  abbrev pub WroteOn : Conn → List ℕ → Bool → W → Option (Conn × W × List ℕ) → Type 0
  WroteOn c now true w r = r ≡ some ((end_write loop c w).0, (end_write loop c w).1, now)
  WroteOn c now false w r = r ≡ some (c, w, now)

  abbrev pub Continued :
      Bool → Conn → W → List ℕ → List ℕ → WriteAnswer → Option (Conn × W × List ℕ) → Type 0
  Continued true c w sent xs a r =
      r
      ≡ some (
        (end_write loop (record c { write_timeout = true }) w).0,
        (end_write loop (record c { write_timeout = true }) w).1,
        sent,
      )
  Continued false c w sent xs a r =
      (o : Conn × List ℕ × Bool) × WroteOnce c sent xs a o × WroteOn o.0 o.1 o.2 w r
