-- ===== src/Conn/Setup.antt =====
-- src/spe_conn.c: connecting, the time limits, and the table of connections.
use spe.Base.{
  ℕ, ◌*◌, ◌+◌, Bool, true, false, not, Option, none, some, [], leb, if◌then◌else◌, ◌>>=◌, ◌&&◌,
  ◌==◌,
}
use spe.Buf.{Buf, clean}
use spe.Buf
use spe.Conn.{connect_normal, read_none, read_any, Conn, for_both, Loop, start_timer, stop_timer}

-- What getaddrinfo and connect say: no address, an answer at once, or EINPROGRESS.
pub data ConnectAnswer : Type 0 where
  no_address connected in_progress refused : ConnectAnswer

-- What getsockopt says of SO_ERROR: it fails, or it gives an error or none.
pub data SockError : Type 0 where
  sockopt_failed sock_error no_sock_error : SockError

abbrev pub sock_flags : SockError → Conn → Conn
sock_flags no_sock_error c = c
sock_flags sockopt_failed c = record c { is_error = true }
sock_flags sock_error c = record c { is_error = true }

-- `spe_conn_set_timeout`
unfoldable pub set_timeout : Conn → ℕ → ℕ → Conn
set_timeout c read_ms write_ms = record c {
  read_expire_time = read_ms;
  write_expire_time = write_ms;
}

-- An element of `conns`; its buffers are alive, or were freed.
pub record Slot : Type 0 where
  pub conn : Conn
  pub alive : Bool

-- The element at `fd` as calloc leaves it; a task is an address in it.
abbrev pub blank_slot : ℕ → Slot
blank_slot fd = record {
  conn = record {
    fd = 0;
    read_task = 4 * fd;
    write_task = 4 * fd + 1;
    post_read_task = 4 * fd + 2;
    post_write_task = 4 * fd + 3;
    read_expire_time = 0;
    write_expire_time = 0;
    buffer = Buf.create;
    read_buffer = Buf.create;
    write_buffer = Buf.create;
    delim = [];
    rbytes = 0;
    reading = read_none;
    writing = false;
    connect_timeout = false;
    read_timeout = false;
    write_timeout = false;
    is_closed = false;
    is_error = false;
  };
  alive = false;
}

-- `init_conn`: the table, and the number of its elements; `calloc` tells whether it is allocated.
unfoldable pub init_conn : Bool → ℕ → Option ((ℕ → Slot) × ℕ)
init_conn calloc maxfd = if calloc then some (blank_slot, maxfd) else none

-- The rest of `spe_conn_create`: a buffer that was freed must not be cleaned.
unfoldable pub reuse : Slot → Option Slot
reuse s =
    if s.alive
    then (do
      b ← clean s.conn.buffer
      r ← clean s.conn.read_buffer
      o ← clean s.conn.write_buffer
      some (record s {
        conn = record (s.conn) {
          buffer = b;
          read_buffer = r;
          write_buffer = o;
          read_expire_time = 0;
          write_expire_time = 0;
          reading = read_none;
          writing = false;
          is_closed = false;
          is_error = false;
        };
      }))
    else none

module _ {W : Type 0} (loop : Loop W) where
  -- `end_out` of `connect_normal`
  unfoldable pub end_connect : Conn → W → Conn × W
  unfolding stop_timer
  end_connect c w = (
    record c { reading = read_none; writing = false },
    loop.schedule (stop_timer loop (loop.disable w c.fd for_both) c.read_task c.read_expire_time)
        c.post_read_task,
  )

  -- `connect_normal`
  unfoldable pub on_connected : SockError → Conn → W → Conn × W
  unfolding end_connect
  on_connected err c w =
      if not (c.read_expire_time == 0) && loop.timed_out w c.read_task
      then end_connect (record c { connect_timeout = true }) w
      else end_connect (sock_flags err c) w

  -- The branch for EINPROGRESS.
  unfoldable pub connect_async : Conn → W → Conn × W
  unfolding start_timer
  connect_async c w = (
    record c { connect_timeout = false; reading = read_any; writing = true },
    start_timer loop
        (loop.enable (loop.set_handler w c.read_task connect_normal) c.fd for_both c.read_task)
        c.read_task c.read_expire_time,
  )

  -- `spe_conn_connect`
  unfoldable pub connect : ConnectAnswer → Conn → W → Bool × Conn × W
  unfolding connect_async
  connect no_address c w = (false, c, w)
  connect in_progress c w = (true, (connect_async c w).0, (connect_async c w).1)
  connect connected c w = (true, c, loop.schedule w c.post_read_task)
  connect refused c w = (true, record c { is_error = true }, loop.schedule w c.post_read_task)

  -- `spe_conn_destroy`
  unfoldable pub destroy : Conn → W → W
  destroy c w =
      let w1 : W = loop.dequeue (loop.dequeue w c.read_task) c.write_task in
      let w2 : W = loop.dequeue (loop.dequeue w1 c.post_read_task) c.post_write_task in
      loop.close (loop.disable w2 c.fd for_both) c.fd

  -- `conn_initialize`; `calloc` is false if one of the three buffers is not allocated.
  unfoldable pub initialize : Bool → ℕ → Slot → W → Bool × Slot × W
  initialize calloc fd s w =
      let c : Conn = s.conn in
      let w1 : W = loop.init_task (loop.init_task w c.read_task) c.write_task in
      let w2 : W = loop.init_task (loop.init_task w1 c.post_read_task) c.post_write_task in
      (
        calloc,
        record {
          conn = record c {
            fd = fd;
            buffer = Buf.create;
            read_buffer = Buf.create;
            write_buffer = Buf.create;
          };
          alive = calloc;
        },
        w2,
      )

  -- The test `conn->_fd == 0` and the initialisation.
  unfoldable pub prepare : Bool → ℕ → Slot → W → Bool × Slot × W
  unfolding initialize
  prepare calloc fd s w = if s.conn.fd == 0 then initialize calloc fd s w else (true, s, w)

  unfoldable pub create_end : Bool × Slot × W → Option (Bool × Slot × W)
  unfolding reuse
  create_end (false, s, w) = some (false, s, w)
  create_end (true, s, w) = reuse s >>= λ s'. some (true, s', w)

  -- `spe_conn_create` on the element `s` of the table; true is a connection, false is NULL.
  unfoldable pub create : ℕ → Bool → ℕ → Slot → W → Option (Bool × Slot × W)
  unfolding prepare create_end
  create maxfd calloc fd s w =
      if leb maxfd fd
      then some (false, s, w)
      else create_end (prepare calloc fd s (loop.set_nonblocking w fd))
