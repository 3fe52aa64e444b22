-- ===== src/Conn/Serve.antt =====
-- src/spe_conn.c, the reads of a user: `spe_conn_read`, `spe_conn_readbytes` and
-- `spe_conn_read_until` on a connection that is open.
use spe.Base.{ℕ, ◌≤◌, ◌≡◌, Bool, true, Option, none, some, List, [], ◌++◌, length, take, drop}
use spe.Base.System.{
  eintr, eagain, epipe, einprogress, other_errno, ReadAnswer, got, at_end, read_failed,
}
use spe.Buf.{Buf}
use spe.Buf.Total.{Owns}
use spe.Conn.{Conn, Loop}
use spe.Conn.Read.{Want, await}
use spe.Conn.Front.{front}

module _ (realloc : List ℕ → ℕ → Option (List ℕ)) {W : Type 0} (loop : Loop W) where
  -- The bytes `ys` are read and the connection is open: the front of them goes to the user, whose task
  -- is scheduled; or there is none, and the connection waits.
  abbrev pub Progress :
      Want → Conn → W → List ℕ → List ℕ → Option ℕ → Option (Bool × Conn × W) → Type 0
  Progress want c w xs ys none r =
      (b : Buf) × (r
        ≡ some (
          true,
          (await realloc loop want (record c { read_buffer = b }) w).0,
          (await realloc loop want (record c { read_buffer = b }) w).1,
        ))
      × Owns b ys
  Progress want c w xs ys (some n) r =
      (n ≤ length ys)
      × (b : Buf × Buf) × (r
          ≡ some (
            true,
            record c { buffer = b.0; read_buffer = b.1 },
            loop.schedule w c.post_read_task,
          ))
      × Owns b.0 (xs ++ take n ys)
      × Owns b.1 (drop n ys)

  -- The stream is at its end, or broken: all that was read goes to the user.
  abbrev pub Ended : Conn → W → List ℕ → List ℕ → Option (Bool × Conn × W) → Type 0
  Ended c w xs ys r =
      (b : Buf × Buf) × (r
        ≡ some
            (true, record c { buffer = b.0; read_buffer = b.1 }, loop.schedule w c.post_read_task))
      × Owns b.0 (xs ++ ys)
      × Owns b.1 []

  -- What a read does, by the answer of the kernel.
  abbrev pub Served :
      Want → Conn → W → List ℕ → List ℕ → ReadAnswer → Option (Bool × Conn × W) → Type 0
  Served want c w xs ys (got zs) r = Progress want c w xs (ys ++ zs) (front want (ys ++ zs)) r
  Served want c w xs ys at_end r = Ended (record c { is_closed = true }) w xs ys r
  Served want c w xs ys (read_failed eintr) r = Progress want c w xs ys (front want ys) r
  Served want c w xs ys (read_failed eagain) r = Progress want c w xs ys (front want ys) r
  Served want c w xs ys (read_failed epipe) r = Ended (record c { is_error = true }) w xs ys r
  Served want c w xs ys (read_failed einprogress) r = Ended (record c { is_error = true }) w xs ys r
  Served want c w xs ys (read_failed other_errno) r = Ended (record c { is_error = true }) w xs ys r
