-- ===== src/Task/Early.antt =====
-- spe_task.c: what becomes of a timer when the clock, 64 bits of milliseconds since 1970, has
-- outgrown `_expire`, an `unsigned`.
use spe.Base.{
  ℕ, ◌+◌, ◌%◌, ◌^◌, ◌≤◌, ◌<◌, ◌≡◌, ◌≢◌, refl, ap, ◌∙◌, true, some, List, [], ◌∷◌, arith, ◌||◌,
  ==_self, length,
}
use spe.Task.{
  Status, free, timer, queued, RbTree, Sched, inorder, fire, schedule_timeout_from,
  schedule_timeout,
}
use spe.Task.Timers.{IsRbTree, count, count-append, All-of_all}
use spe.Task.Invariant.{Inv, in_queue, expiry}
use spe.Task.Calls.{schedule_timeout_from-Inv}
use spe.Task.Fire.{elem, Fired, fire-Fired}

elem-count : (i : ℕ) (xs : List ℕ) → 0 < count i xs → elem i xs ≡ true
elem-count i [] h = absurd (omega arith)
elem-count i (x ∷ xs) h = ground (arith, elem-count i xs)

queued_of_count : (st : Status) → 0 < in_queue st → st ≡ queued
queued_of_count queued h = refl
queued_of_count free h = absurd (omega arith)
queued_of_count timer h = absurd (omega arith)

module _ {Handler : Type 0} (rb : RbTree) where
  -- The task is among the timers with the clock and the delay, cut to 32 bits.
  started :
      (st : Status) (s : Sched Handler) (i now ms : ℕ)
      → st ≢ queued
      → (((schedule_timeout_from rb st s i now ms).task i).status ≡ timer)
        × (((schedule_timeout_from rb st s i now ms).task i).expire ≡ (now + ms) % 2 ^ 32)
  unfolding schedule_timeout_from
  started queued s i now ms h = absurd (h refl)
  started free s i now ms h = (rw (==_self i), rw (==_self i))
  started timer s i now ms h = (rw (==_self i), rw (==_self i))

  -- A timer whose time has come is among those that fire, and so in the queue.
  due_timer :
      (s s' : Sched Handler) (i now : ℕ)
      → Inv s
      → (s.task i).status ≡ timer
      → expiry s i ≤ now
      → Fired s now s'
      → ((s'.task i).status ≡ queued) × ((s'.task i).timeout ≡ true)
  due_timer s s' i now v e h f =
      let all : count i (inorder s.timers) ≡ 1 = ground (arith, v.timers_once i, e) in
      let waits : ¬ (0 < count i f.later) =
        λ c. omega (arith, h, All-of_all (λ j. now < expiry s j) f.later f.later_waits i c) in
      let fires : 0 < count i f.due =
        omega (arith, all, ap (count i) f.parts, count-append i f.due f.later, waits) in
      let queue : 0 < in_queue (s'.task i).status = omega (
        arith,
        fires,
        ap (count i) f.queue_grows,
        count-append i s.queue f.due,
        f.valid.queue_once i,
      ) in
      let told : (elem i f.due || (s.task i).timeout) ≡ true = rw (elem-count i f.due fires) refl in
      (queued_of_count (s'.task i).status queue, f.told i ∙ told)

  -- From a well-formed scheduler, with more fuel than there are timers: when the clock stands at 2^32 ms or more, a task that is free or waits on the timers and is
  -- given any delay is moved to the queue as timed out by the timer loop of the same millisecond.
  pub fire-schedule_timeout_early :
      (laws : IsRbTree rb) (fuel : ℕ) (s : Sched Handler) (i now ms : ℕ)
      → 2 ^ 32 ≤ now
      → Inv s
      → (s.task i).status ≢ queued
      → length (inorder (schedule_timeout rb s i now ms).timers) < fuel
      → (s' : Sched Handler) × (fire rb fuel (schedule_timeout rb s i now ms) now ≡ some s')
        × ((s'.task i).status ≡ queued)
        × ((s'.task i).timeout ≡ true)
  unfolding schedule_timeout
  fire-schedule_timeout_early laws fuel s i now ms h v n enough =
      let s1 : Sched Handler = schedule_timeout_from rb (s.task i).status s i now ms in
      let (st, e) = started (s.task i).status s i now ms n in
      let v1 : Inv s1 = schedule_timeout_from-Inv rb laws (s.task i).status s i now ms refl v in
      let (s', q, f) = fire-Fired rb laws fuel s1 now enough v1 in
      let due : expiry s1 i ≤ now = omega (arith, e, h) in
      let (moved, told) = due_timer s1 s' i now v1 st due f in (s', q, moved, told)
