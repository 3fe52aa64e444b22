-- ===== src/Task/Invariant.antt =====
-- spe_task.c: what every call keeps. A task is in the queue once if its status says so, and else not
-- at all; so for the timers, which stand in the order of their expiry.
use mathlib.Core.Path.{subst}
use spe.Base.{
  ℕ, ◌≡◌, refl, sym, ap, ◌∙◌, ◌≢◌, ◌⊎◌, inl, inr, false, List, [], ◌∷◌, ◌++◌, arith, ◌==◌, ==_self,
  Bool-cases, All,
}
use spe.Task.{
  Status, free, timer, queued, Tree, inorder, RbTree, Task, Sched, update, remove, link,
  leave_timers, enqueue, dequeue_from,
}
use spe.Task.Timers.{
  IsRbTree, count, count-append, count-remove, count-insert, Sorted, Sorted-agree, insert,
  inorder-link, insert-Sorted, remove-Sorted, All-of_count,
}

abbrev pub in_queue : Status → ℕ
in_queue queued = 1
in_queue free = 0
in_queue timer = 0

abbrev pub in_timers : Status → ℕ
in_timers timer = 1
in_timers free = 0
in_timers queued = 0

module _ {Handler : Type 0} where
  abbrev pub expiry : Sched Handler → ℕ → ℕ
  expiry s j = (s.task j).expire

  pub record Inv (s : Sched Handler) : Type 0 where
    pub queue_once : (i : ℕ) → count i s.queue ≡ in_queue (s.task i).status
    pub timers_once : (i : ℕ) → count i (inorder s.timers) ≡ in_timers (s.task i).status
    pub by_expiry : Sorted (expiry s) (inorder s.timers)

  -- A statement about every task after one of them changed.
  pub update-all :
      (C : ℕ → Task Handler → Type 0) (f : ℕ → Task Handler) (i : ℕ) (t : Task Handler)
      → C i t
      → ((j : ℕ) → (j == i) ≡ false → C j (f j))
      → (j : ℕ) → C j (update f i t j)
  update-all C f i t here other j = elim (Bool-cases (j == i)) [
    | inl q ↦ let same : i ≡ j = ground arith in rw q (subst (λ k. C k t) same here)
    | inr q ↦ rw q (other j q)
  ]

  pub update-agree :
      (s : Sched Handler) (i : ℕ) (t : Task Handler) (xs : List ℕ)
      → (t.expire ≡ (s.task i).expire) ⊎ (count i xs ≡ 0)
      → All (λ j. (update s.task i t j).expire ≡ expiry s j) xs
  update-agree s i t xs (inl e) =
      All-of_count _ xs
        (λ j c. update-all (λ k u. u.expire ≡ expiry s k) s.task i t e (λ k q. refl) j)
  update-agree s i t xs (inr e) = All-of_count _ xs (λ j c. elim (Bool-cases (j == i)) [
    | inl q ↦ let same : j ≡ i = ground arith in absurd (omega (arith, ap (λ k. count k xs) same))
    | inr q ↦ rw q
  ])

  -- A change that keeps the expiry of a task, or is to a task that is not listed, keeps the order.
  pub update-Sorted :
      (s : Sched Handler) (i : ℕ) (t : Task Handler) (xs : List ℕ)
      → (t.expire ≡ (s.task i).expire) ⊎ (count i xs ≡ 0)
      → Sorted (expiry s) xs
      → Sorted (λ j. (update s.task i t j).expire) xs
  update-Sorted s i t xs e h =
      Sorted-agree (expiry s) (λ j. (update s.task i t j).expire) xs (update-agree s i t xs e) h

  -- One task changes, with the two collections; the other tasks stay where they are.
  pub change-Inv :
      (s : Sched Handler) (i : ℕ) (t : Task Handler) (q : List ℕ) (ts : Tree)
      → Inv s
      → count i q ≡ in_queue t.status
      → ((j : ℕ) → (j == i) ≡ false → count j q ≡ count j s.queue)
      → count i (inorder ts) ≡ in_timers t.status
      → ((j : ℕ) → (j == i) ≡ false → count j (inorder ts) ≡ count j (inorder s.timers))
      → Sorted (λ j. (update s.task i t j).expire) (inorder ts)
      → Inv (record { task = update s.task i t; queue = q; timers = ts })
  change-Inv s i t q ts v qi qj ti tj sorted = record {
    queue_once =
        update-all (λ j u. count j q ≡ in_queue u.status) s.task i t qi
          (λ j n. qj j n ∙ v.queue_once j);
    timers_once =
        update-all (λ j u. count j (inorder ts) ≡ in_timers u.status) s.task i t ti
          (λ j n. tj j n ∙ v.timers_once j);
    by_expiry = sorted;
  }

  -- What is left of the timers when task `i` leaves them.
  pub record Left (s : Sched Handler) (i : ℕ) (ts : Tree) : Type 0 where
    pub gone : count i (inorder ts) ≡ 0
    pub others : (j : ℕ) → (j == i) ≡ false → count j (inorder ts) ≡ count j (inorder s.timers)
    pub sorted : Sorted (expiry s) (inorder ts)

  module _ (rb : RbTree) (laws : IsRbTree rb) where
    pub erase-Left :
        (s : Sched Handler) (i : ℕ)
        → Inv s
        → (s.task i).status ≡ timer
        → Left s i (rb.erase i s.timers)
    erase-Left s i v e =
        let xs : List ℕ = inorder s.timers in
        let gone = laws.inorder-erase i s.timers in
        record {
          gone = ap (count i) gone ∙ ground (arith, count-remove i i xs, v.timers_once i, e);
          others = λ j n. ap (count j) gone ∙ ground (arith, count-remove i j xs, n);
          sorted = subst (Sorted (expiry s)) (sym gone) (remove-Sorted (expiry s) i xs v.by_expiry);
        }

    -- `spe_task_dequeue` keeps the invariant, and the task is in neither collection afterwards.
    pub dequeue_from-Inv :
        (st : Status) (s : Sched Handler) (i : ℕ)
        → (s.task i).status ≡ st
        → Inv s
        → Inv (dequeue_from rb st s i) × (((dequeue_from rb st s i).task i).status ≡ free)
    unfolding dequeue_from
    dequeue_from-Inv free s i e v = (v, e)
    dequeue_from-Inv queued s i e v =
        let t : Task Handler = record (s.task i) { status = free } in
        (
          change-Inv s i t (remove i s.queue) s.timers v
              (ground (arith, count-remove i i s.queue, v.queue_once i, e))
              (λ j n. ground (arith, count-remove i j s.queue, n))
              (ground (arith, v.timers_once i, e)) (λ j n. refl)
              (update-Sorted s i t (inorder s.timers) (inl refl) v.by_expiry),
          rw (==_self i),
        )
    dequeue_from-Inv timer s i e v =
        let t : Task Handler = record (s.task i) { status = free } in
        let left = erase-Left s i v e in
        (
          change-Inv s i t s.queue (rb.erase i s.timers) v (ground (arith, v.queue_once i, e))
              (λ j n. refl) left.gone left.others
              (update-Sorted s i t (inorder (rb.erase i s.timers)) (inl refl) left.sorted),
          rw (==_self i),
        )

    -- The timers behind the test of `spe_task_schedule` and `spe_task_schedule_timeout`.
    pub leave_timers-Left :
        (st : Status) (s : Sched Handler) (i : ℕ)
        → (s.task i).status ≡ st
        → Inv s
        → Left s i (leave_timers rb st s i).timers
    unfolding leave_timers
    leave_timers-Left timer s i e v = erase-Left s i v e
    leave_timers-Left free s i e v = record {
      gone = ground (arith, v.timers_once i, e);
      others = λ j n. refl;
      sorted = v.by_expiry;
    }
    leave_timers-Left queued s i e v = record {
      gone = ground (arith, v.timers_once i, e);
      others = λ j n. refl;
      sorted = v.by_expiry;
    }

    -- list_add_tail for a task that is in neither collection any more.
    pub enqueue-Inv :
        (s : Sched Handler) (i : ℕ) (t : Task Handler) (ts : Tree)
        → Inv s
        → (s.task i).status ≢ queued
        → t.expire ≡ (s.task i).expire
        → Left s i ts
        → Inv (enqueue rb (record s { timers = ts }) i t)
    unfolding enqueue
    enqueue-Inv s i t ts v not_queued same left =
        change-Inv s i (record t { status = queued }) (s.queue ++ (i ∷ [])) ts v
          (ground (arith, count-append i s.queue (i ∷ []), v.queue_once i, not_queued))
          (λ j n. ground (arith, count-append j s.queue (i ∷ []), n)) left.gone left.others
          (update-Sorted s i (record t { status = queued }) (inorder ts) (inl same) left.sorted)

    -- A task enters the timers at time `e`.
    pub enter_timers-Inv :
        (s : Sched Handler) (i e : ℕ) (t : Task Handler) (ts : Tree)
        → Inv s
        → (s.task i).status ≢ queued
        → t.status ≡ timer
        → t.expire ≡ e
        → Left s i ts
        → Inv (record {
          task = update s.task i t;
          queue = s.queue;
          timers = rb.insert_color i (link (expiry s) e i ts);
        })
    enter_timers-Inv s i e t ts v not_queued st exp left =
        let xs : List ℕ = inorder ts in
        let place : inorder (rb.insert_color i (link (expiry s) e i ts))
            ≡ insert (expiry s) e i xs =
          laws.inorder-insert_color i _ ∙ inorder-link (expiry s) e i ts left.sorted in
        let key : ℕ → ℕ = λ j. (update s.task i t j).expire in
        change-Inv s i t s.queue (rb.insert_color i (link (expiry s) e i ts)) v
          (ground (arith, v.queue_once i, not_queued, st)) (λ j n. refl)
          (ap (count i) place ∙ ground (arith, count-insert (expiry s) e i i xs, left.gone, st))
          (λ j n.
            ap (count j) place
            ∙ ground (arith, count-insert (expiry s) e i j xs, left.others j n, n))
          (subst (Sorted key) (sym place) (
            insert-Sorted (expiry s) key e i xs (ground arith)
              (update-agree s i t xs (inr left.gone)) left.sorted))
