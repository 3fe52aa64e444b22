-- ===== src/Task.antt =====
-- src/spe_task.c, src/spe_task.h and src/spe_handler.h: the scheduler, a queue of tasks to run and
-- a tree of timers.
-- A task is known by a number, which stands for its address; `task_head` is a list of them.
-- The list macros of spe_list.h are operations on that list. The red-black tree of spe_rbtree.c is
-- a parameter (`RbTree`): the code here walks the tree itself to insert.
pub mod Timers
pub mod Invariant
pub mod Calls
pub mod Fire
pub mod Early
pub mod Drain
use mathlib.Core.Option.{IsSome}
use spe.Base.{
  ℕ, zero, suc, ◌+◌, ◌%◌, ◌^◌, ◌≡◌, Bool, true, false, Option, none, some, List, [], ◌∷◌, ◌++◌, ltb,
  ◌==◌, if◌then◌else◌, ◌>>=◌,
}

-- SPE_TASK_FREE, SPE_TASK_TIMER, SPE_TASK_QUEUE
pub data Status : Type 0 where
  free timer queued : Status

-- The nodes of the timer tree, with the task of each.
pub data Tree : Type 0 where
  leaf : Tree
  node : Tree → ℕ → Tree → Tree

abbrev pub inorder : Tree → List ℕ
inorder leaf = []
inorder (node l i r) = inorder l ++ (i ∷ inorder r)

-- What spe_rbtree.c offers; colours are its own affair.
pub record RbTree : Type 0 where
  pub insert_color : ℕ → Tree → Tree
  pub erase : ℕ → Tree → Tree
  pub first : Tree → Option ℕ

-- A handler is a function and its arguments; `none` is SPE_HANDLER_NULL.
module _ (Handler : Type 0) where
  -- `spe_task_t`
  pub record Task : Type 0 where
    pub handler : Option Handler
    pub expire : ℕ
    pub status : Status
    pub fast : Bool
    pub timeout : Bool

  -- `task_head`, `timer_head` and the tasks themselves.
  pub record Sched : Type 0 where
    pub task : ℕ → Task
    pub queue : List ℕ
    pub timers : Tree

abbrev pub update {ℓ} : {A : Type ℓ} → (ℕ → A) → ℕ → A → ℕ → A
update f i a j = if j == i then a else f j

-- list_del: the first occurrence goes.
unfoldable pub remove : ℕ → List ℕ → List ℕ
remove i [] = []
remove i (x ∷ xs) = if x == i then xs else x ∷ remove i xs

-- The loop of `spe_task_schedule_timeout` and `rb_link_node`: a new leaf in the place that the
-- expiry times lead to, behind equal ones.
unfoldable pub link : (ℕ → ℕ) → ℕ → ℕ → Tree → Tree
link key e i leaf = node leaf i leaf
link key e i (node l j r) =
    if ltb e (key j) then node (link key e i l) j r else node l j (link key e i r)

module _ {Handler : Type 0} where
  abbrev pub set_task : Sched Handler → ℕ → Task Handler → Sched Handler
  set_task s i t = record s { task = update s.task i t }

  unfoldable pub init : Sched Handler → ℕ → Sched Handler
  init s i =
      set_task s i
        (record { handler = none; expire = 0; status = free; fast = false; timeout = false })

  unfoldable pub set_handler : Sched Handler → ℕ → Option Handler → Bool → Sched Handler
  set_handler s i h fast = set_task s i (record (s.task i) { handler = h; fast = fast })

  pub empty : Sched Handler → Bool
  empty s = elim s.queue [ [] ↦ true | x ∷ xs ↦ false ]

  module _ (rb : RbTree) where
    -- `rb_erase` and `rb_init_node`
    unfoldable pub unlink : Sched Handler → ℕ → Sched Handler
    unlink s i = record s { timers = rb.erase i s.timers }

    -- if (task->_status == SPE_TASK_TIMER) { rb_erase ... }
    unfoldable pub leave_timers : Status → Sched Handler → ℕ → Sched Handler
    unfolding unlink
    leave_timers timer s i = unlink s i
    leave_timers free s i = s
    leave_timers queued s i = s

    -- list_add_tail(&task->_task_node, &task_head); task->_status = SPE_TASK_QUEUE;
    unfoldable pub enqueue : Sched Handler → ℕ → Task Handler → Sched Handler
    enqueue s i t = record s {
      task = update s.task i (record t { status = queued });
      queue = s.queue ++ (i ∷ []);
    }

    unfoldable pub schedule_timeout_from : Status → Sched Handler → ℕ → ℕ → ℕ → Sched Handler
    unfolding leave_timers link
    schedule_timeout_from queued s i now ms = s
    schedule_timeout_from st s i now ms =
        let s' : Sched Handler = leave_timers st s i in
        let e : ℕ = (now + ms) % 2 ^ 32 in
        record s' {
          task =
              update s'.task i (record (s.task i) { expire = e; timeout = false; status = timer });
          timers = rb.insert_color i (link (λ j. (s.task j).expire) e i s'.timers);
        }

    -- `now` is `spe_current_time ()`; `_expire` is an `unsigned`.
    unfoldable pub schedule_timeout : Sched Handler → ℕ → ℕ → ℕ → Sched Handler
    unfolding schedule_timeout_from
    schedule_timeout s i now ms = schedule_timeout_from (s.task i).status s i now ms

    unfoldable pub dequeue_from : Status → Sched Handler → ℕ → Sched Handler
    unfolding unlink remove
    dequeue_from free s i = s
    dequeue_from queued s i =
        set_task (record s { queue = remove i s.queue }) i (record (s.task i) { status = free })
    dequeue_from timer s i = set_task (unlink s i) i (record (s.task i) { status = free })

    unfoldable pub dequeue : Sched Handler → ℕ → Sched Handler
    unfolding dequeue_from
    dequeue s i = dequeue_from (s.task i).status s i

    -- The body of the timer loop of `spe_task_process`.
    unfoldable pub expire_first : Sched Handler → ℕ → Sched Handler
    unfolding unlink enqueue
    expire_first s i = enqueue (unlink s i) i (record (s.task i) { timeout = true })

    -- One round: `rb_first`, the test of the expiry time, and `again` for the rest of the loop.
    unfoldable pub fire_round :
        (Sched Handler → Option (Sched Handler))
        → Sched Handler
        → ℕ
        → Option ℕ
        → Option (Sched Handler)
    unfolding expire_first
    fire_round again s now none = some s
    fire_round again s now (some i) =
        let rest : Option (Sched Handler) = again (expire_first s i) in
        if ltb now (s.task i).expire then some s else rest

    -- The timer loop, on fuel; `Fire.antt` shows that the number of timers is enough.
    unfoldable pub fire : ℕ → Sched Handler → ℕ → Option (Sched Handler)
    unfolding fire_round
    fire zero s now = none
    fire (suc fuel) s now = fire_round (λ s'. fire fuel s' now) s now (rb.first s.timers)

    -- SPE_HANDLER_CALL, with what the handler does to the scheduler.
    module _ (call : Handler → Sched Handler → Sched Handler) where
      unfoldable pub handler_call : Option Handler → Sched Handler → Sched Handler
      handler_call none s = s
      handler_call (some h) s = call h s

      unfoldable pub schedule_from : Status → Sched Handler → ℕ → Sched Handler
      unfolding leave_timers enqueue handler_call
      schedule_from queued s i = s
      schedule_from st s i =
          let s' : Sched Handler = leave_timers st s i in
          if (s.task i).fast
          then handler_call (s.task i).handler (set_task s' i (record (s.task i) { status = free }))
          else enqueue s' i (s.task i)

      unfoldable pub schedule : Sched Handler → ℕ → Sched Handler
      unfolding schedule_from
      schedule s i = schedule_from (s.task i).status s i

      -- The loop of `spe_task_process` over the queue, on fuel: a handler may schedule for ever.
      unfoldable pub run_queue : ℕ → Sched Handler → Option (Sched Handler)
      unfolding handler_call
      run_queue zero s = none
      run_queue (suc fuel) s = elim s.queue [
        | [] ↦ some s
        | i ∷ rest ↦ run_queue fuel (
            handler_call (s.task i).handler
              (set_task (record s { queue = rest }) i (record (s.task i) { status = free })))
      ]

      -- `spe_task_process`
      unfoldable pub process : ℕ → Sched Handler → ℕ → Option (Sched Handler)
      unfolding fire run_queue
      process fuel s now = fire fuel s now >>= run_queue fuel
