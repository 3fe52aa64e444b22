-- ===== src/Conn/Create.antt =====
-- src/spe_conn.c, `spe_conn_create`: what a new connection is like.
use spe.Base.{ℕ, ◌≡◌, true, false, List, []}
use spe.Buf.Total.{Owns}
use spe.Conn.{read_none}
use spe.Conn.Setup.{Slot}

-- The buffers of an element that is in use.
pub record OwnsBuffers (s : Slot) : Type 0 where
  pub alive : s.alive ≡ true
  pub buffer : (xs : List ℕ) × Owns s.conn.buffer xs
  pub read_buffer : (xs : List ℕ) × Owns s.conn.read_buffer xs
  pub write_buffer : (xs : List ℕ) × Owns s.conn.write_buffer xs

-- A connection that nothing has happened on.
pub record IsFresh (s : Slot) : Type 0 where
  pub alive : s.alive ≡ true
  pub buffer : Owns s.conn.buffer []
  pub read_buffer : Owns s.conn.read_buffer []
  pub write_buffer : Owns s.conn.write_buffer []
  pub no_read_limit : s.conn.read_expire_time ≡ 0
  pub no_write_limit : s.conn.write_expire_time ≡ 0
  pub reading : s.conn.reading ≡ read_none
  pub writing : s.conn.writing ≡ false
  pub open_still : s.conn.is_closed ≡ false
  pub no_error : s.conn.is_error ≡ false
