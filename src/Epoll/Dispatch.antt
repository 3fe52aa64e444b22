-- ===== src/Epoll/Dispatch.antt =====
-- spe_epoll.c, `spe_epoll_process`: which tasks are scheduled for the events of one round.
use spe.Base.{
  ℕ, ◌≡◌, refl, sym, ap, ◌∙◌, ◌⊎◌, inl, inr, Bool, true, false, Option, none, some, List, [], ◌∷◌,
  ◌++◌, arith, ◌&&◌, ◌>>=◌,
}
use spe.Epoll.{Mask, Entry, schedule_if, on_event, process_events}

-- A watched event has a task.
abbrev pub HasTask : Bool → Option ℕ → Type 0
HasTask b t = (b ≡ false) ⊎ ((i : ℕ) × (t ≡ some i))

pub record IsReady (e : Entry) : Type 0 where
  pub reader : HasTask e.mask.readable e.read_task
  pub writer : HasTask e.mask.writable e.write_task

abbrev pub task_if : Bool → Option ℕ → List ℕ
task_if false t = []
task_if true none = []
task_if true (some i) = i ∷ []

-- The tasks that one round of events wakes, in order.
pub woken : (ℕ → Entry) → List (ℕ × Mask) → List ℕ
woken t [] = []
woken t (ev ∷ evs) =
    task_if (ev.1.readable && (t ev.0).mask.readable) (t ev.0).read_task
    ++ (task_if (ev.1.writable && (t ev.0).mask.writable) (t ev.0).write_task ++ woken t evs)

pub schedule_all : {W : Type 0} → (W → ℕ → W) → W → List ℕ → W
schedule_all schedule w [] = w
schedule_all schedule w (i ∷ is) = schedule_all schedule (schedule w i) is

module _ {W : Type 0} (epolls : W → ℕ → Entry) (schedule : W → ℕ → W) where
  schedule_all-append :
      (w : W) (is js : List ℕ)
      → schedule_all schedule w (is ++ js) ≡ schedule_all schedule (schedule_all schedule w is) js
  unfolding schedule_all
  schedule_all-append w [] js = refl
  schedule_all-append w (i ∷ is) js = schedule_all-append (schedule w i) is js

  schedule_if-task_if :
      (b c : Bool) (t : Option ℕ) (w : W)
      → HasTask c t
      → schedule_if epolls schedule (b && c) t w
        ≡ some (schedule_all schedule w (task_if (b && c) t))
  unfolding schedule_if schedule_all
  schedule_if-task_if false c t w h = refl
  schedule_if-task_if true false t w h = refl
  schedule_if-task_if true true none w (inl e) = absurd (ground (arith, e))
  schedule_if-task_if true true none w (inr (i, e)) = absurd (ground (arith, e))
  schedule_if-task_if true true (some i) w h = refl

  module _ (kept : (w : W) (i : ℕ) → epolls (schedule w i) ≡ epolls w) where
    epolls-schedule_all : (w : W) (is : List ℕ) → epolls (schedule_all schedule w is) ≡ epolls w
    unfolding schedule_all
    epolls-schedule_all w [] = refl
    epolls-schedule_all w (i ∷ is) = epolls-schedule_all (schedule w i) is ∙ kept w i

    -- If every watched event has a task and the tasks that are scheduled leave the table alone (so
    -- none is fast and enables or disables descriptors), the loop of `spe_epoll_process` schedules,
    -- in the order of the events, the tasks whose events arrived and are watched, reader before
    -- writer, and passes no NULL task.
    pub process_events-woken :
        (evs : List (ℕ × Mask)) (w : W)
        → ((fd : ℕ) → IsReady (epolls w fd))
        → process_events epolls schedule evs w
          ≡ some (schedule_all schedule w (woken (epolls w) evs))
    unfolding process_events on_event woken schedule_all
    process_events-woken [] w ready = refl
    process_events-woken (ev ∷ evs) w ready =
        let t : ℕ → Entry = epolls w in
        let rs : List ℕ = task_if (ev.1.readable && (t ev.0).mask.readable) (t ev.0).read_task in
        let ws : List ℕ = task_if (ev.1.writable && (t ev.0).mask.writable) (t ev.0).write_task in
        let w1 : W = schedule_all schedule w rs in
        let w2 : W = schedule_all schedule w1 ws in
        let same1 : epolls w1 ≡ t = epolls-schedule_all w rs in
        let same2 : epolls w2 ≡ t = epolls-schedule_all w1 ws ∙ same1 in
        let first =
          schedule_if-task_if ev.1.readable (t ev.0).mask.readable (t ev.0).read_task w
            (ready ev.0).reader in
        let second =
          schedule_if-task_if ev.1.writable (t ev.0).mask.writable (t ev.0).write_task w1
            (ready ev.0).writer in
        let rest = process_events-woken evs w2 (λ fd. rw same2 (ready fd)) in
        rw (first, ◌>>=◌, same1, second, ◌>>=◌, rest, same2)
          (ap some (
            sym (
              schedule_all-append w rs (ws ++ woken t evs)
              ∙ schedule_all-append w1 ws (woken t evs))))
