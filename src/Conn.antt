-- ===== src/Conn.antt =====
-- src/spe_conn.c and src/spe_conn.h: a connection, which reads and writes without blocking and tells
-- its user through two tasks. The calls and the handlers stand in the children.
-- What a connection uses of spe_task.c and spe_epoll.c is the interface `Loop`, over a state `W`.
pub mod Read
pub mod Write
pub mod Setup
pub mod Front
pub mod Serve
pub mod Turn
pub mod Wake
pub mod Flush
pub mod Create
pub mod Calls
pub mod Keeps
pub mod Tasks
use spe.Base.{ℕ, Bool, true, false, List, if◌then◌else◌, ◌==◌}
use spe.Buf.{Buf}
use spe.Epoll.{Mask}

-- The handlers that a connection sets for its own tasks, with the connection as argument.
pub data ConnHandler : Type 0 where
  connect_normal read_normal write_normal : ConnHandler

-- `_read_type`; SPE_CONN_CONNECT and SPE_CONN_READ are one number.
pub data Reading : Type 0 where
  read_none read_any read_until read_bytes : Reading

-- `spe_conn_t`, with the numbers of its four tasks; `writing` is `_write_type`.
pub record Conn : Type 0 where
  pub fd : ℕ
  pub read_task : ℕ
  pub write_task : ℕ
  pub post_read_task : ℕ
  pub post_write_task : ℕ
  pub read_expire_time : ℕ
  pub write_expire_time : ℕ
  pub buffer : Buf
  pub read_buffer : Buf
  pub write_buffer : Buf
  pub delim : List ℕ
  pub rbytes : ℕ
  pub reading : Reading
  pub writing : Bool
  pub connect_timeout : Bool
  pub read_timeout : Bool
  pub write_timeout : Bool
  pub is_closed : Bool
  pub is_error : Bool

abbrev pub for_read : Mask
for_read = record { readable = true; writable = false }

abbrev pub for_write : Mask
for_write = record { readable = false; writable = true }

abbrev pub for_both : Mask
for_both = record { readable = true; writable = true }

-- The calls of the scheduler, of epoll and of spe_sock.c. A result that no caller here looks at is left out, and a
-- handler that is set here is never fast.
pub record Loop (W : Type 0) : Type 0 where
  pub init_task : W → ℕ → W
  pub set_handler : W → ℕ → ConnHandler → W
  pub schedule : W → ℕ → W
  pub schedule_timeout : W → ℕ → ℕ → W
  pub dequeue : W → ℕ → W
  pub timed_out : W → ℕ → Bool
  pub enable : W → ℕ → Mask → ℕ → W
  pub disable : W → ℕ → Mask → W
  pub set_nonblocking : W → ℕ → W
  pub close : W → ℕ → W

module _ {W : Type 0} (loop : Loop W) where
  -- if (conn->_read_expire_time) spe_task_schedule_timeout(...)
  pub start_timer : W → ℕ → ℕ → W
  start_timer w task ms = if ms == 0 then w else loop.schedule_timeout w task ms

  -- if (conn->_read_expire_time) spe_task_dequeue(...)
  pub stop_timer : W → ℕ → ℕ → W
  stop_timer w task ms = if ms == 0 then w else loop.dequeue w task
