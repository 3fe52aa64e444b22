-- ===== src/Task/Calls.antt =====
-- spe_task.c: every call of the interface keeps the invariant, fast handlers included.
use spe.Base.{
  ℕ, ◌+◌, ◌%◌, ◌^◌, ◌≡◌, ◌≢◌, refl, inl, Bool, true, false, Option, none, some, List, [], ◌∷◌,
  arith, if◌then◌else◌,
}
use spe.Task.{
  Status, free, timer, queued, Tree, RbTree, set_task, enqueue, Task, Sched, inorder, set_handler,
  leave_timers, schedule_timeout_from, schedule_timeout, dequeue, handler_call, schedule_from,
  schedule,
}
use spe.Task.Timers.{IsRbTree}
use spe.Task.Invariant.{
  Inv, Left, change-Inv, update-Sorted, erase-Left, leave_timers-Left, dequeue_from-Inv,
  enqueue-Inv, enter_timers-Inv,
}

module _ {Handler : Type 0} (rb : RbTree) (laws : IsRbTree rb) where
  pub schedule_timeout_from-Inv :
      (st : Status) (s : Sched Handler) (i now ms : ℕ)
      → (s.task i).status ≡ st
      → Inv s
      → Inv (schedule_timeout_from rb st s i now ms)
  unfolding schedule_timeout_from leave_timers
  schedule_timeout_from-Inv queued s i now ms e v = v
  schedule_timeout_from-Inv free s i now ms e v =
      enter_timers-Inv rb laws s i ((now + ms) % 2 ^ 32) _ s.timers v (λ q. cc) refl refl
        (leave_timers-Left rb laws free s i e v)
  schedule_timeout_from-Inv timer s i now ms e v =
      enter_timers-Inv rb laws s i ((now + ms) % 2 ^ 32) _ (rb.erase i s.timers) v (λ q. cc) refl
        refl (erase-Left rb laws s i v e)

-- A call of the interface, on the task that is given.
pub data Request (Handler : Type 0) : Type 0 where
  sets_handler : ℕ → Option Handler → Bool → Request Handler
  schedules : ℕ → Request Handler
  schedules_timeout : ℕ → ℕ → ℕ → Request Handler
  dequeues : ℕ → Request Handler

module _ {Handler : Type 0} (rb : RbTree) (call : Handler → Sched Handler → Sched Handler) where
  unfoldable pub perform : Sched Handler → Request Handler → Sched Handler
  perform s (sets_handler i h fast) = set_handler s i h fast
  perform s (schedules i) = schedule rb call s i
  perform s (schedules_timeout i now ms) = schedule_timeout rb s i now ms
  perform s (dequeues i) = dequeue rb s i

  unfoldable pub perform_all : Sched Handler → List (Request Handler) → Sched Handler
  unfolding perform
  perform_all s [] = s
  perform_all s (r ∷ rs) = perform_all (perform s r) rs

  module _ (laws : IsRbTree rb)
      (kept : (h : Handler) (s : Sched Handler) → Inv s → Inv (call h s)) where
    set_handler-Inv :
        (s : Sched Handler) (i : ℕ) (h : Option Handler) (fast : Bool)
        → Inv s
        → Inv (set_handler s i h fast)
    unfolding set_handler
    set_handler-Inv s i h fast v =
        change-Inv s i (record (s.task i) { handler = h; fast = fast }) s.queue s.timers v
          (v.queue_once i) (λ j n. refl) (v.timers_once i) (λ j n. refl)
          (update-Sorted s i (record (s.task i) { handler = h; fast = fast }) (inorder s.timers)
            (inl refl) v.by_expiry)

    handler_call-Inv :
        (h : Option Handler) (s : Sched Handler) → Inv s → Inv (handler_call rb call h s)
    unfolding handler_call
    handler_call-Inv none s v = v
    handler_call-Inv (some h) s v = kept h s v

    either-Inv : (b : Bool) (s t : Sched Handler) → Inv s → Inv t → Inv (if b then s else t)
    either-Inv true s t v w = v
    either-Inv false s t v w = w

    -- Behind the timers: the handler runs at once, or the task goes to the queue.
    run_or_queue-Inv :
        (s : Sched Handler) (i : ℕ) (ts : Tree)
        → Inv s
        → (s.task i).status ≢ queued
        → Left s i ts
        → Inv (
            if (s.task i).fast
            then handler_call rb call
                (s.task i).handler
                (set_task (record s { timers = ts }) i (record (s.task i) { status = free }))
            else enqueue rb (record s { timers = ts }) i (s.task i))
    run_or_queue-Inv s i ts v n left =
        let t : Task Handler = record (s.task i) { status = free } in
        either-Inv (s.task i).fast _ _
          (handler_call-Inv (s.task i).handler _ (
            change-Inv s i t s.queue ts v (ground (arith, v.queue_once i, n)) (λ j q. refl)
              left.gone left.others (update-Sorted s i t (inorder ts) (inl refl) left.sorted)))
          (enqueue-Inv rb laws s i (s.task i) ts v n refl left)

    schedule_from-Inv :
        (st : Status) (s : Sched Handler) (i : ℕ)
        → (s.task i).status ≡ st
        → Inv s
        → Inv (schedule_from rb call st s i)
    unfolding schedule_from leave_timers
    schedule_from-Inv queued s i e v = v
    schedule_from-Inv free s i e v =
        run_or_queue-Inv s i s.timers v (λ q. cc) (leave_timers-Left rb laws free s i e v)
    schedule_from-Inv timer s i e v =
        run_or_queue-Inv s i (rb.erase i s.timers) v (λ q. cc) (erase-Left rb laws s i v e)

    -- From a well-formed scheduler, any sequence of `spe_task_set_handler`, `spe_task_schedule`, `spe_task_schedule_timeout` and
    -- `spe_task_dequeue` keeps every task in the collection that its status names, once, and the
    -- timers in the order of expiry, if the handlers that fast tasks run keep this too.
    pub perform_all-Inv :
        (s : Sched Handler) (rs : List (Request Handler)) → Inv s → Inv (perform_all s rs)
    unfolding perform_all schedule schedule_timeout dequeue
    perform_all-Inv s [] v = v
    perform_all-Inv s (sets_handler i h fast ∷ rs) v =
        perform_all-Inv (set_handler s i h fast) rs (set_handler-Inv s i h fast v)
    perform_all-Inv s (schedules i ∷ rs) v =
        perform_all-Inv (schedule rb call s i) rs (schedule_from-Inv (s.task i).status s i refl v)
    perform_all-Inv s (schedules_timeout i now ms ∷ rs) v =
        perform_all-Inv (schedule_timeout rb s i now ms) rs
          (schedule_timeout_from-Inv rb laws (s.task i).status s i now ms refl v)
    perform_all-Inv s (dequeues i ∷ rs) v =
        perform_all-Inv (dequeue rb s i) rs
          (dequeue_from-Inv rb laws (s.task i).status s i refl v).0
