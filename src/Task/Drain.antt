-- ===== src/Task/Drain.antt =====
-- spe_task.c, `spe_task_process` as a whole: the timers, then the queue until it is empty.
use spe.Base.{
  ℕ, zero, suc, ◌+◌, ◌≤◌, ◌<◌, ◌≡◌, refl, sym, ap, ◌∙◌, inl, Option, none, some, List, [], ◌∷◌,
  arith, ==_self, ◌>>=◌, length, length-append,
}
use spe.Task.{
  Status, free, timer, queued, RbTree, Task, Sched, inorder, set_task, handler_call, run_queue,
  process,
}
use spe.Task.Timers.{IsRbTree, count}
use spe.Task.Invariant.{Inv, in_queue, in_timers, change-Inv, update-Sorted}
use spe.Task.Fire.{fire-Fired}

status_of_count : (st : Status) → in_queue st ≡ 1 → in_timers st ≡ 0
status_of_count queued h = refl
status_of_count free h = refl
status_of_count timer h = absurd (omega arith)

-- A handler that keeps the invariant and leaves no more tasks in the queue than it finds.
abbrev pub Settles : {Handler : Type 0} → (Handler → Sched Handler → Sched Handler) → Type 0
Settles {Handler} call =
    (h : Handler) (s : Sched Handler)
    → Inv s
    → Inv (call h s) × (length (call h s).queue ≤ length s.queue)

module _ {Handler : Type 0} (rb : RbTree) (call : Handler → Sched Handler → Sched Handler) where
  take_first-Inv :
      (s : Sched Handler) (i : ℕ) (rest : List ℕ)
      → s.queue ≡ i ∷ rest
      → Inv s
      → Inv (set_task (record s { queue = rest }) i (record (s.task i) { status = free }))
  take_first-Inv s i rest e v =
      let t : Task Handler = record (s.task i) { status = free } in
      let once : count i (i ∷ rest) ≡ suc (count i rest) = ground (arith, ==_self i) in
      let most : in_queue (s.task i).status ≤ 1 = at_most_one (s.task i).status in
      let listed : count i (i ∷ rest) ≡ in_queue (s.task i).status =
        ap (count i) (sym e) ∙ v.queue_once i in
      let st : in_timers (s.task i).status ≡ 0 = status_of_count (s.task i).status (omega arith) in
      change-Inv s i t rest s.timers v (omega arith) (λ j n. ground (arith, ap (count j) e, n))
        (v.timers_once i ∙ st) (λ j n. refl)
        (update-Sorted s i t (inorder s.timers) (inl refl) v.by_expiry)
    where
      at_most_one : (st : Status) → in_queue st ≤ 1
      at_most_one queued = omega arith
      at_most_one free = omega arith
      at_most_one timer = omega arith

  handler_call-Settles :
      (h : Option Handler) (s : Sched Handler)
      → Settles call
      → Inv s
      → Inv (handler_call rb call h s) × (length (handler_call rb call h s).queue ≤ length s.queue)
  unfolding handler_call
  handler_call-Settles none s ok v = (v, omega arith)
  handler_call-Settles (some h) s ok v = ok h s v

  run_queue-empties :
      (fuel : ℕ) (s : Sched Handler) (q : List ℕ)
      → Settles call
      → s.queue ≡ q
      → length q < fuel
      → Inv s
      → (s' : Sched Handler) × (run_queue rb call fuel s ≡ some s') × Inv s' × (s'.queue ≡ [])
  unfolding run_queue
  run_queue-empties zero s q ok e h v = absurd (omega arith)
  run_queue-empties (suc fuel) s [] ok e h v = (s, rw e refl, v, e)
  run_queue-empties (suc fuel) s (i ∷ rest) ok e h v =
      let m : Sched Handler =
        set_task (record s { queue = rest }) i (record (s.task i) { status = free }) in
      let (w, shorter) =
        handler_call-Settles (s.task i).handler m ok (take_first-Inv s i rest e v) in
      let (s', p, v', done) =
        run_queue-empties fuel (handler_call rb call (s.task i).handler m)
          (handler_call rb call (s.task i).handler m).queue ok refl (omega arith) w in
      (s', rw e p, v', done)

  -- From a well-formed scheduler, if each handler keeps it well formed and leaves no more tasks in
  -- the queue than it finds, `spe_task_process` returns within as many rounds of each loop as there
  -- are timers and tasks in the queue, and the queue is then empty.
  pub process_empties_queue :
      (laws : IsRbTree rb) (ok : Settles call) (fuel : ℕ) (s : Sched Handler) (now : ℕ)
      → Inv s
      → length (inorder s.timers) + length s.queue < fuel
      → (s' : Sched Handler) × (process rb call fuel s now ≡ some s') × Inv s' × (s'.queue ≡ [])
  unfolding process
  process_empties_queue laws ok fuel s now v h =
      let (m, e, f) = fire-Fired rb laws fuel s now (omega arith) v in
      let size : length m.queue < fuel = omega (
        arith,
        ap length f.queue_grows,
        length-append s.queue f.due,
        ap length f.parts,
        length-append f.due f.later,
      ) in
      let (s', p, v', done) = run_queue-empties fuel m m.queue ok refl size f.valid in
      (s', rw (e, ◌>>=◌) p, v', done)
