-- ===== src/Tests/Tasks.antt =====
-- Inputs for the theorems on spe_task.c.
use spe.Base.{
  length, ℕ, ◌+◌, ◌≤◌, ◌<◌, ◌≡◌, ◌≢◌, refl, ap, true, false, none, some, List, [], ◌∷◌, arith,
}
use spe.Task.{
  schedule_from, schedule_timeout_from, link, leave_timers, enqueue, handler_call, set_task, Status,
  free, timer, queued, Tree, leaf, node, inorder, RbTree, Sched, remove, set_handler, schedule,
  schedule_timeout, dequeue, fire, unlink, dequeue_from, process,
}
use spe.Task.Timers.{IsRbTree, head?}
use spe.Task.Invariant.{Inv, dequeue_from-Inv}
use spe.Task.Calls.{
  Request, sets_handler, schedules, schedules_timeout, dequeues, perform_all, perform_all-Inv,
}
use spe.Task.Fire.{Fired, fire-Fired}
use spe.Task.Drain.{Settles, process_empties_queue}
use spe.Task.Early.{fire-schedule_timeout_early}

pub of_list : List ℕ → Tree
of_list [] = leaf
of_list (i ∷ is) = node leaf i (of_list is)

inorder-of_list : (is : List ℕ) → inorder (of_list is) ≡ is
unfolding of_list
inorder-of_list [] = refl
inorder-of_list (i ∷ is) = ap (◌∷◌ i) (inorder-of_list is)

-- A tree that is not balanced.
abbrev pub plain_tree : RbTree
plain_tree = record {
  insert_color = λ i t. t;
  erase = λ i t. of_list (remove i (inorder t));
  first = λ t. head? (inorder t);
}

pub plain_tree-IsRbTree : IsRbTree plain_tree
plain_tree-IsRbTree = record {
  inorder-insert_color = λ i t. refl;
  inorder-erase = λ i t. inorder-of_list (remove i (inorder t));
  first-inorder = λ t. refl;
}

-- No task is anywhere.
abbrev pub idle : Sched ℕ
idle = record {
  task = λ i. record { handler = none; expire = 0; status = free; fast = false; timeout = false };
  queue = [];
  timers = leaf;
}

pub idle-Inv : Inv idle
idle-Inv = record { queue_once = λ i. refl; timers_once = λ i. refl; by_expiry = tt }

-- The handler `h` takes task `h` out.
abbrev pub takes_out : ℕ → Sched ℕ → Sched ℕ
takes_out h s = dequeue plain_tree s h

pub takes_out-Inv : (h : ℕ) (s : Sched ℕ) → Inv s → Inv (takes_out h s)
unfolding dequeue
takes_out-Inv h s v =
    (dequeue_from-Inv plain_tree plain_tree-IsRbTree (s.task h).status s h refl v).0

abbrev requests : List (Request ℕ)
requests =
    sets_handler 5 (some 1) true
    ∷ schedules_timeout 1 100 50
    ∷ schedules_timeout 2 100 20
    ∷ schedules 3
    ∷ schedules_timeout 4 100 20
    ∷ schedules 5
    ∷ dequeues 2
    ∷ []

after_requests : Sched ℕ
unfolding perform_all
after_requests = perform_all plain_tree takes_out idle requests

after_requests_lists : (inorder after_requests.timers ≡ 4 ∷ []) × (after_requests.queue ≡ 3 ∷ [])
unfolding after_requests perform_all schedule schedule_timeout dequeue schedule_from
    schedule_timeout_from dequeue_from set_handler remove link leave_timers enqueue handler_call
    unlink set_task of_list
after_requests_lists = (refl, refl)

perform_all-Inv_example : Inv (perform_all plain_tree takes_out idle requests)
perform_all-Inv_example =
    perform_all-Inv plain_tree takes_out plain_tree-IsRbTree takes_out-Inv idle requests idle-Inv

-- Two timers, started in the other order.
abbrev start_two : List (Request ℕ)
start_two = schedules_timeout 1 100 50 ∷ schedules_timeout 2 100 20 ∷ []

abbrev two_timers : Sched ℕ
two_timers = perform_all plain_tree takes_out idle start_two

two_timers_length : length (inorder two_timers.timers) < 3
unfolding perform_all schedule_timeout schedule_timeout_from leave_timers link
two_timers_length = omega arith

two_timers-Inv : Inv two_timers
two_timers-Inv =
    perform_all-Inv plain_tree takes_out plain_tree-IsRbTree takes_out-Inv idle start_two idle-Inv

fire-Fired_example :
    (s' : Sched ℕ) × (fire plain_tree 3 two_timers 130 ≡ some s') × Fired two_timers 130 s'
fire-Fired_example =
    fire-Fired plain_tree plain_tree-IsRbTree 3 two_timers 130 two_timers_length two_timers-Inv

-- The clock of some day in 2020.
abbrev clock : ℕ
clock = 1600000000000

one_hour_length : length (inorder (schedule_timeout plain_tree idle 7 clock 3600000).timers) < 2
unfolding schedule_timeout schedule_timeout_from leave_timers link
one_hour_length = omega arith

fire-schedule_timeout_early_example :
    (s' : Sched ℕ) × (fire plain_tree 2 (schedule_timeout plain_tree idle 7 clock 3600000) clock
      ≡ some s')
    × ((s'.task 7).status ≡ queued)
    × ((s'.task 7).timeout ≡ true)
fire-schedule_timeout_early_example =
    fire-schedule_timeout_early plain_tree plain_tree-IsRbTree 2 idle 7 clock 3600000 (omega arith)
      idle-Inv free_not_queued one_hour_length
  where
    free_not_queued : free ≢ queued
    free_not_queued = λ q. cc

length-remove : (i : ℕ) (xs : List ℕ) → length (remove i xs) ≤ length xs
unfolding remove
length-remove i [] = omega arith
length-remove i (x ∷ xs) = ground (arith, length-remove i xs)

dequeue_from_shorter :
    (st : Status) (s : Sched ℕ) (i : ℕ)
    → length (dequeue_from plain_tree st s i).queue ≤ length s.queue
unfolding dequeue_from unlink set_task
dequeue_from_shorter free s i = omega arith
dequeue_from_shorter timer s i = omega arith
dequeue_from_shorter queued s i = length-remove i s.queue

takes_out-Settles : Settles takes_out
unfolding dequeue
takes_out-Settles h s v = (takes_out-Inv h s v, dequeue_from_shorter (s.task h).status s h)

two_timers_work : length (inorder two_timers.timers) + length two_timers.queue < 3
unfolding perform_all schedule_timeout schedule_timeout_from leave_timers link
two_timers_work = omega arith

process_empties_queue_example :
    (s' : Sched ℕ) × (process plain_tree takes_out 3 two_timers 130 ≡ some s')
    × Inv s'
    × (s'.queue ≡ [])
process_empties_queue_example =
    process_empties_queue plain_tree takes_out plain_tree-IsRbTree takes_out-Settles 3 two_timers
      130 two_timers-Inv two_timers_work
