-- ===== src/Conn/Tasks.antt =====
-- src/spe_conn.c over the models of spe_task.c and spe_epoll.c.
use spe.Base.{ℕ, Bool, false, some, [], ◌∷◌}
use spe.Task.{RbTree, Sched, init}
use spe.Task.Invariant.{Inv}
use spe.Task.Calls
use spe.Task.Calls.{Request, sets_handler, schedules, schedules_timeout, dequeues}
use spe.Epoll.{Mask, World, CtlOp}
use spe.Epoll.Agree
use spe.Epoll.Agree.{enables, disables, Agrees}
use spe.Conn.{Conn, ConnHandler, Loop}
use spe.Conn.Calls.{perform_all}
use spe.Conn.Keeps.{Keeps}

module _ {K Handler : Type 0} (rb : RbTree) (call : Handler → Sched Handler → Sched Handler)
    (epoll_ctl : K → CtlOp → ℕ → Mask → K × Bool) (close_fd : K → ℕ → K)
    (handler : ℕ → ConnHandler → Handler) (now : ℕ) where
  -- The scheduler and epoll as a connection uses them at the time `now`; `handler` is the handler of the
  -- connection whose task is given.
  request_of : World K (Sched Handler) → Request Handler → World K (Sched Handler)
  request_of w r = record w { sched = Calls.perform_all rb call w.sched (r ∷ []) }

  pub loop_of : Loop (World K (Sched Handler))
  unfolding request_of
  loop_of = record {
    init_task = λ w t. record w { sched = init w.sched t };
    set_handler = λ w t h. request_of w (sets_handler t (some (handler t h)) false);
    schedule = λ w t. request_of w (schedules t);
    schedule_timeout = λ w t ms. request_of w (schedules_timeout t now ms);
    dequeue = λ w t. request_of w (dequeues t);
    timed_out = λ w t. (w.sched.task t).timeout;
    enable = λ w fd m t. Agree.perform_all epoll_ctl w (enables fd m t ∷ []);
    disable = λ w fd m. Agree.perform_all epoll_ctl w (disables fd m ∷ []);
    set_nonblocking = λ w fd. w;
    close = λ w fd. record w { kernel = close_fd w.kernel fd };
  }

  -- The scheduler is well formed, and the kernel watches what the masks say.
  pub record Sound (watched : K → ℕ → Mask) (w : World K (Sched Handler)) : Type 0 where
    pub tasks : Inv w.sched
    pub epolls : Agrees {S = Sched Handler} epoll_ctl watched w
