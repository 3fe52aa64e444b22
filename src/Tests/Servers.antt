-- ===== src/Tests/Servers.antt =====
-- spe_server.c, and spe_conn.c over the scheduler and epoll, at concrete inputs.
use spe.Base.{ℕ, Bool, true, false, some, List, [], ◌∷◌, if◌then◌else◌, ◌==◌}
use spe.Task.{Sched}
use spe.Epoll.{Mask, World, no_event, init_epoll}
use spe.Conn.{Conn, ConnHandler}
use spe.Conn.Setup.{blank_slot, in_progress, no_sock_error, connect, on_connected}
use spe.Conn.Tasks.{loop_of}
use spe.Server.{Server, Net}
use spe.Tests.Tasks.{plain_tree, idle, takes_out}
use spe.Tests.Events.{plain_ctl}

abbrev clear_world : World (ℕ → Mask) (Sched ℕ)
clear_world = init_epoll 100 (λ j. no_event) idle

abbrev conn_of_five : Conn
conn_of_five = record (blank_slot 5).conn { fd = 5; read_expire_time = 30 }

-- Closing a descriptor ends its watch.
abbrev closes : (ℕ → Mask) → ℕ → ℕ → Mask
closes k fd = λ j. if j == fd then no_event else k j

-- The handler of a task is its number.
abbrev task_handler : ℕ → ConnHandler → ℕ
task_handler t h = t

abbrev began : Bool × Conn × World (ℕ → Mask) (Sched ℕ)
began =
    connect (loop_of plain_tree takes_out plain_ctl closes task_handler 1000) in_progress
      conn_of_five clear_world

abbrev finished : Conn × World (ℕ → Mask) (Sched ℕ)
finished =
    on_connected (loop_of plain_tree takes_out plain_ctl closes task_handler 1000) no_sock_error
      began.1 began.2

-- The mutexes held here, and the sockets listened on; mutex 9 is held elsewhere.
abbrev Marks : Type 0
Marks = (ℕ → Bool) × (ℕ → Bool)

abbrev put_mark : (ℕ → Bool) → ℕ → Bool → ℕ → Bool
put_mark f i b j = if j == i then b else f j

abbrev marks_net : Net Marks
marks_net = record {
  trylock = λ w m. if m == 9 then (w, false) else ((put_mark w.0 m true, w.1), true);
  unlock = λ w m. (put_mark w.0 m false, w.1);
  listen = λ w fd t. (w.0, put_mark w.1 fd true);
  unlisten = λ w fd. (w.0, put_mark w.1 fd false);
  destroy_mutex = λ w m. w;
  close = λ w fd. w;
  set_user_handler = λ w t h c a. w;
}

abbrev marks_mine : Marks → ℕ → Bool
marks_mine w m = w.0 m

abbrev marks_listening : Marks → ℕ → Bool
marks_listening w fd = w.1 fd

-- The first server listens, the second one does not yet; the mutex of the first is held elsewhere.
abbrev servers : List Server
servers =
    record { sfd = 3; handler = some 1; arg = 0; listen_task = 40; mutex = 9; hold = true }
    ∷ record { sfd = 4; handler = some 1; arg = 0; listen_task = 41; mutex = 8; hold = false }
    ∷ []

abbrev on_three : Marks
on_three = (λ m. false, put_mark (λ j. false) 3 true)
