-- ===== src/Worker/Turn.antt =====
-- src/spe_worker.c, `spe_worker_process`: the event loop of a worker. Its parts are the interface
-- `Events`, over a state `W`.
use spe.Base.{
  ℕ, zero, suc, ◌≡◌, refl, ap, Bool, Bool-cases, inl, inr, not, List, [], ◌∷◌, ◌++◌, replicate,
  if◌then◌else◌,
}

-- `worker_stop`, `spe_task_empty`, `spe_server_preloop`, `spe_epoll_process`, `spe_server_postloop`,
-- `spe_task_process` and `spe_signal_process`
pub record Events (W : Type 0) : Type 0 where
  pub stopping : W → Bool
  pub task_empty : W → Bool
  pub preloop : W → W
  pub epoll_process : ℕ → W → W
  pub postloop : W → W
  pub task_process : W → W
  pub signal_process : W → W

-- `unsigned timeout = 300;`
abbrev pub first_timeout : ℕ
first_timeout = 300

module _ {W : Type 0} (events : Events W) where
  -- if (!spe_task_empty()) timeout = 0;
  unfoldable pub next_timeout : ℕ → W → ℕ
  next_timeout timeout w = if not (events.task_empty w) then 0 else timeout

  -- The body of the loop behind this test.
  unfoldable pub turn : ℕ → W → W
  turn timeout w =
      let polled : W = events.epoll_process timeout (events.preloop w) in
      events.signal_process (events.task_process (events.postloop polled))

  -- The first `n` turns of the loop: the state, and the time limits that epoll got.
  unfoldable pub turns : ℕ → ℕ → W → W × List ℕ
  unfolding next_timeout turn
  turns zero timeout w = (w, [])
  turns (suc n) timeout w =
      let t : ℕ = next_timeout timeout w in
      let rest : W × List ℕ = turns n t (turn t w) in
      if events.stopping w then (w, []) else (rest.0, t ∷ rest.1)

  zero_limit : (w : W) → next_timeout 0 w ≡ 0
  unfolding next_timeout
  zero_limit w = elim (Bool-cases (events.task_empty w)) [ inl q ↦ rw q refl | inr q ↦ rw q refl ]

  all_zero : (n : ℕ) (w : W) → (m : ℕ) × ((turns n 0 w).1 ≡ replicate m 0)
  unfolding turns
  all_zero zero w = (0, refl)
  all_zero (suc n) w = elim (Bool-cases (events.stopping w)) [
    | inl q ↦ (0, rw q refl)
    | inr q ↦ let (m, e) = all_zero n (turn 0 w) in (suc m, rw (q, zero_limit w) (ap (◌∷◌ 0) e))
  ]

  -- The time limits that the loop gives to epoll: 300 until a turn starts with a task in the queue, and 0 for
  -- ever after that.
  pub turns-timeouts :
      (n : ℕ) (w : W)
      → (k : ℕ) × (m : ℕ) × ((turns n first_timeout w).1
          ≡ replicate k first_timeout ++ replicate m 0)
  unfolding turns next_timeout
  turns-timeouts zero w = (0, 0, refl)
  turns-timeouts (suc n) w = elim (Bool-cases (events.stopping w)) [
    | inl q ↦ (0, 0, rw q refl)
    | inr q ↦ elim (Bool-cases (events.task_empty w)) [
      | inl e ↦
          let (k, m, h) = turns-timeouts n (turn first_timeout w) in
          (suc k, m, rw (q, e) (ap (◌∷◌ first_timeout) h))
      | inr e ↦ let (m, h) = all_zero n (turn 0 w) in (0, suc m, rw (q, e) (ap (◌∷◌ 0) h))
    ]
  ]
