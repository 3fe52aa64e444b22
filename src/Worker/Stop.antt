-- ===== src/Worker/Stop.antt =====
-- spe_worker.c, `spe_worker_stop`: every worker in the table gets the command.
use mathlib.Core.List.{append_assoc, append-nil}
use spe.Base.{
  ℕ, zero, suc, ◌+◌, ◌≤◌, ◌<◌, ◌≡◌, refl, sym, ap, ◌∙◌, inl, inr, false, List, [], ◌∷◌, ◌++◌, arith,
  if◌then◌else◌, ◌==◌, ==_self, Bool-cases,
}
use spe.Worker.{Master, max_worker, put_at, stop_one, stop_from, stop}

-- The channels of the slots in use, among `n` from `i` on, in order.
unfoldable pub running : (ℕ → ℕ) → (ℕ → ℕ) → ℕ → ℕ → List ℕ
running pid fd zero i = []
running pid fd (suc n) i =
    if pid i == 0 then running pid fd n (suc i) else fd i ∷ running pid fd n (suc i)

running-put_at :
    (pid fd : ℕ → ℕ) (n i k : ℕ) → i < k → running (put_at pid i 0) fd n k ≡ running pid fd n k
unfolding running
running-put_at pid fd zero i k h = refl
running-put_at pid fd (suc n) i k h =
    let apart : (k == i) ≡ false = ground arith in
    let rest = running-put_at pid fd n i (suc k) (omega arith) in rw (apart, rest) refl

behind :
    (xs : List ℕ) (fd : ℕ) (ys zs : List ℕ) → ys ≡ zs → (xs ++ (fd ∷ [])) ++ ys ≡ xs ++ (fd ∷ zs)
behind xs fd ys zs e = append_assoc xs (fd ∷ []) ys ∙ ap (λ l. xs ++ (fd ∷ l)) e

unchanged : (t : ℕ → ℕ) (i k : ℕ) → k < i → put_at t i 0 k ≡ t k
unchanged t i k h = let apart : (k == i) ≡ false = ground arith in rw apart refl

-- `m'` is `m` after the loop over `n` slots from `i` on.
pub record Stopped (m m' : Master) (n i : ℕ) : Type 0 where
  pub told : m'.stopped ≡ m.stopped ++ running m.pid m.notify_fd n i
  pub shut : m'.closed ≡ m.closed ++ running m.pid m.notify_fd n i
  pub free : (k : ℕ) → i ≤ k → k < i + n → m'.pid k ≡ 0
  pub earlier : (k : ℕ) → k < i → m'.pid k ≡ m.pid k

freed :
    (t : ℕ → ℕ) (n i : ℕ)
    → t i ≡ 0
    → ((k : ℕ) → suc i ≤ k → k < suc i + n → t k ≡ 0)
    → (k : ℕ) → i ≤ k
    → k < i + suc n
    → t k ≡ 0
freed t n i z rest k h g = elim (Bool-cases (k == i)) [
  | inl c ↦ let same : k ≡ i = ground arith in ap t same ∙ z
  | inr c ↦ rest k (ground arith) (omega arith)
]

stop_from-Stopped : (n i : ℕ) (m : Master) → Stopped m (stop_from n i m) n i
unfolding stop_from stop_one running
stop_from-Stopped zero i m = record {
  told = sym (append-nil m.stopped);
  shut = sym (append-nil m.closed);
  free = λ k h g. absurd (omega arith);
  earlier = λ k h. refl;
}
stop_from-Stopped (suc n) i m = elim (Bool-cases (m.pid i == 0)) [
  | inl q ↦
      let r = stop_from-Stopped n (suc i) m in
      let zero_here : m.pid i ≡ 0 = ground arith in
      rw q (record {
        told = rw q r.told;
        shut = rw q r.shut;
        free = freed (stop_from n (suc i) m).pid n i (r.earlier i (omega arith) ∙ zero_here) r.free;
        earlier = λ k h. r.earlier k (omega arith);
      })
  | inr q ↦
      let fd : ℕ = m.notify_fd i in
      let m1 : Master = record m {
        pid = put_at m.pid i 0;
        stopped = m.stopped ++ (fd ∷ []);
        closed = m.closed ++ (fd ∷ []);
      } in
      let r = stop_from-Stopped n (suc i) m1 in
      let same = running-put_at m.pid m.notify_fd n i (suc i) (omega arith) in
      let m2 : Master = stop_from n (suc i) m1 in
      rw q (record {
        told = rw q (r.told ∙ behind m.stopped fd _ _ same);
        shut = rw q (r.shut ∙ behind m.closed fd _ _ same);
        free = freed m2.pid n i (r.earlier i (omega arith) ∙ rw (==_self i) refl) r.free;
        earlier = λ k h. r.earlier k (omega arith) ∙ unchanged m.pid i k h;
      })
]

running-free :
    (pid fd : ℕ → ℕ) (n i : ℕ) → ((k : ℕ) → i ≤ k → k < i + n → pid k ≡ 0) → running pid fd n i ≡ []
unfolding running
running-free pid fd zero i h = refl
running-free pid fd (suc n) i h =
    let here : pid i ≡ 0 = h i (omega arith) (omega arith) in
    rw here (running-free pid fd n (suc i) (λ k g l. h k (omega arith) (omega arith)))

-- `spe_worker_stop` sends the command to the channel of every slot in use, once and in order,
-- closes those channels, and leaves all 128 slots free.
pub stop-Stopped :
    (m : Master)
    → ((stop m).stopped ≡ m.stopped ++ running m.pid m.notify_fd max_worker 0)
      × ((stop m).closed ≡ m.closed ++ running m.pid m.notify_fd max_worker 0)
      × (running (stop m).pid (stop m).notify_fd max_worker 0 ≡ [])
unfolding stop
stop-Stopped m =
    let r = stop_from-Stopped max_worker 0 m in
    (
      r.told,
      r.shut,
      running-free (stop_from max_worker 0 m).pid (stop_from max_worker 0 m).notify_fd max_worker 0
          r.free,
    )
