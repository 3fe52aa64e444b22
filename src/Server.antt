-- ===== src/Server.antt =====
-- src/spe_server.c and src/spe_server.h: the sockets that a process listens on. Before each turn of the loop a
-- process tries the mutex of each server, and listens while it holds it; the loop of the worker calls
-- `preloop` and `postloop`. What lies outside the file is the interface `Net`, over a state `W`.
pub mod Hold
pub mod Turn
use spe.Base.{
  ℕ, Bool, true, false, Option, none, some, List, [], ◌∷◌, ◌++◌, if◌then◌else◌, ◌>>=◌, ◌==◌,
}
use spe.Conn.{Conn, Loop}
use spe.Conn.Setup.{Slot, create}

-- `spe_server_t`; the handler is a number, and `none` is NULL.
pub record Server : Type 0 where
  pub sfd : ℕ
  pub handler : Option ℕ
  pub arg : ℕ
  pub listen_task : ℕ
  pub mutex : ℕ
  pub hold : Bool

-- pthread_mutex_trylock and pthread_mutex_unlock, `spe_epoll_enable` and `spe_epoll_disable` for
-- SPE_EPOLL_LISTEN, `spe_shm_mutex_destroy`, `spe_sock_close`, and the setting of the user's handler.
pub record Net (W : Type 0) : Type 0 where
  pub trylock : W → ℕ → W × Bool
  pub unlock : W → ℕ → W
  pub listen : W → ℕ → ℕ → W
  pub unlisten : W → ℕ → W
  pub destroy_mutex : W → ℕ → W
  pub close : W → ℕ → W
  pub set_user_handler : W → ℕ → ℕ → Conn → ℕ → W

module _ {W : Type 0} (net : Net W) where
  -- The body of the loop of `spe_server_preloop`, by the result of the trylock.
  unfoldable pub on_trylock : W × Bool → Server → W × Server
  on_trylock (w, true) s =
      if s.hold then (w, s) else (net.listen w s.sfd s.listen_task, record s { hold = true })
  on_trylock (w, false) s =
      if s.hold then (net.unlisten w s.sfd, record s { hold = false }) else (w, s)

  -- `spe_server_preloop`
  unfoldable pub preloop : W → List Server → W × List Server
  unfolding on_trylock
  preloop w [] = (w, [])
  preloop w (s ∷ ss) =
      let one : W × Server = on_trylock (net.trylock w s.mutex) s in
      let rest : W × List Server = preloop one.0 ss in (rest.0, one.1 ∷ rest.1)

  -- `spe_server_postloop`
  unfoldable pub postloop : W → List Server → W
  postloop w [] = w
  postloop w (s ∷ ss) = postloop (if s.hold then net.unlock w s.mutex else w) ss

  -- `spe_server_unregister`, without the list: `unlisted` takes the server off it.
  unfoldable pub unregister : W → Server → W
  unregister w s =
      let w' : W = if s.hold then net.unlisten w s.sfd else w in
      net.close (net.destroy_mutex w' s.mutex) s.sfd

  -- `exit_server`
  unfoldable pub exit_server : W → List Server → W
  exit_server w [] = w
  exit_server w (s ∷ ss) = exit_server (net.close (net.destroy_mutex w s.mutex) s.sfd) ss

  -- `spe_server_register` behind `spe_sock_tcp_server` and `spe_sock_set_block`, which gave `sfd`:
  -- `calloc` and `mutex` tell whether these were allocated. `loop` initialises the task.
  unfoldable pub register :
      Loop W
      → (W → ℕ → W)
      → W
      → List Server
      → ℕ
      → ℕ
      → Option ℕ
      → ℕ
      → Bool
      → Option ℕ
      → Bool × List Server × W
  register loop set_accept w ss sfd task handler arg false mutex = (false, ss, net.close w sfd)
  register loop set_accept w ss sfd task handler arg true none =
      (false, ss, net.close (set_accept (loop.init_task w task) task) sfd)
  register loop set_accept w ss sfd task handler arg true (some m) =
      let s : Server = record {
        sfd = sfd;
        handler = handler;
        arg = arg;
        listen_task = task;
        mutex = m;
        hold = false;
      } in
      (true, ss ++ (s ∷ []), set_accept (loop.init_task w task) task)

  -- The end of `server_accept`, by the result of `spe_conn_create`.
  unfoldable pub hand_conn : Loop W → ℕ → ℕ → ℕ → Bool × Slot × W → Slot × W
  hand_conn loop h arg fd (false, slot, w) = (slot, net.close w fd)
  hand_conn loop h arg fd (true, slot, w) = (
    slot,
    loop.schedule (net.set_user_handler w slot.conn.post_read_task h slot.conn arg)
        slot.conn.post_read_task,
  )

  -- `server_accept` with a descriptor that accept gave; `slots` are the connections.
  unfoldable pub accept_fd : Loop W → ℕ → Bool → Server → ℕ → Slot → W → Option (Slot × W)
  unfolding hand_conn
  accept_fd loop maxfd calloc s fd slot w = elim s.handler [
    | none ↦ some (slot, net.close w fd)
    | some h ↦ create loop maxfd calloc fd slot w >>= λ r. some (hand_conn loop h s.arg fd r)
  ]

  -- `server_accept`; without a connection, accept gives a negative number, and 0 is left alone too.
  unfoldable pub server_accept :
      Loop W → ℕ → Bool → Server → Option ℕ → (ℕ → Slot) → W → Option ((ℕ → Slot) × W)
  unfolding accept_fd
  server_accept loop maxfd calloc s none slots w = some (slots, w)
  server_accept loop maxfd calloc s (some fd) slots w =
      if fd == 0
      then some (slots, w)
      else (accept_fd loop maxfd calloc s fd (slots fd) w >>= λ r.
          some ((λ j. if j == fd then r.0 else slots j), r.1))
