-- ===== src/Task/Fire.antt =====
-- spe_task.c, the timer loop of `spe_task_process`: it ends, and moves exactly the timers that are
-- due to the queue, in the order of their expiry.
use mathlib.Core.List.{append_assoc, append-nil}
use mathlib.Core.Path.{subst}
use spe.Base.{
  ℕ, zero, suc, ◌≤◌, ◌<◌, ◌≡◌, ◌≢◌, refl, sym, ap, ◌∙◌, inl, inr, Bool, true, false, some, List, [],
  ◌∷◌, ◌++◌, arith, ltb, ltb→lt, ltb-false→le, ◌==◌, ◌||◌, ==_self, Bool-cases, length, All,
}
use spe.Task.{
  Status, free, timer, queued, RbTree, Sched, inorder, expire_first, enqueue, fire, remove,
}
use spe.Task.Timers.{IsRbTree, head?, Sorted, count, All-of_count, All-of_all}
use spe.Task.Invariant.{update-all, Inv, in_timers, expiry, erase-Left, enqueue-Inv}

abbrev pub elem : ℕ → List ℕ → Bool
elem j [] = false
elem j (x ∷ xs) = j == x || elem j xs

timer_of_count : (st : Status) → 0 < in_timers st → st ≡ timer
timer_of_count timer h = refl
timer_of_count free h = absurd (omega arith)
timer_of_count queued h = absurd (omega arith)

-- The head of the list is taken out.
remove-head : (i : ℕ) (xs : List ℕ) → remove i (i ∷ xs) ≡ xs
unfolding remove
remove-head i xs = rw (==_self i)

or-true : (b : Bool) → (b || true) ≡ true
or-true true = refl
or-true false = refl

module _ {Handler : Type 0} where
  -- What the loop has done: the timers were `due`, which now stand behind the queue, and `later`.
  pub record Fired (s : Sched Handler) (now : ℕ) (s' : Sched Handler) : Type 0 where
    pub due : List ℕ
    pub later : List ℕ
    pub valid : Inv s'
    pub parts : inorder s.timers ≡ due ++ later
    pub queue_grows : s'.queue ≡ s.queue ++ due
    pub timers_left : inorder s'.timers ≡ later
    pub due_expired : All (λ j. expiry s j ≤ now) due
    pub later_waits : All (λ j. now < expiry s j) later
    pub told : (j : ℕ) → (s'.task j).timeout ≡ (elem j due || (s.task j).timeout)
    pub same_expiry : (j : ℕ) → expiry s' j ≡ expiry s j

  module _ (rb : RbTree) (laws : IsRbTree rb) where
    -- The loop stops: no timer, or the first waits, and so do the others.
    stop-Fired :
        (s : Sched Handler) (now : ℕ)
        → Inv s
        → All (λ j. now < expiry s j) (inorder s.timers)
        → Fired s now s
    stop-Fired s now v a = record {
      due = [];
      later = inorder s.timers;
      valid = v;
      parts = refl;
      queue_grows = sym (append-nil s.queue);
      timers_left = refl;
      due_expired = tt;
      later_waits = a;
      told = λ j. refl;
      same_expiry = λ j. refl;
    }

    later_than_first :
        (s : Sched Handler) (now i : ℕ) (rest : List ℕ)
        → Sorted (expiry s) (i ∷ rest)
        → now < expiry s i
        → All (λ j. now < expiry s j) (i ∷ rest)
    later_than_first s now i rest sorted h = (
      h,
      All-of_count (λ j. now < expiry s j) rest
          (λ j c. omega (arith, All-of_all (λ y. expiry s i ≤ expiry s y) rest sorted.0 j c)),
    )

    -- One timer that is due.
    expire_first-Inv :
        (s : Sched Handler) (i : ℕ) (rest : List ℕ)
        → inorder s.timers ≡ i ∷ rest
        → Inv s
        → Inv (expire_first rb s i) × (inorder (expire_first rb s i).timers ≡ rest)
    unfolding expire_first enqueue
    expire_first-Inv s i rest e v =
        let counted : count i (i ∷ rest) ≡ suc (count i rest) = ground (arith, ==_self i) in
        let listed : 0 < in_timers (s.task i).status =
          omega (arith, counted, ap (count i) e, v.timers_once i) in
        let st = timer_of_count (s.task i).status listed in
        let not_queued : (s.task i).status ≢ queued = λ q. cc in
        (
          enqueue-Inv rb laws s i (record (s.task i) { timeout = true }) (rb.erase i s.timers) v
              not_queued refl (erase-Left rb laws s i v st),
          laws.inorder-erase i s.timers ∙ ap (remove i) e ∙ remove-head i rest,
        )

    told_first :
        (s : Sched Handler) (i : ℕ) (due : List ℕ) (j : ℕ)
        → (elem j due || ((expire_first rb s i).task j).timeout)
          ≡ (elem j (i ∷ due) || (s.task j).timeout)
    unfolding expire_first enqueue
    told_first s i due j = elim (Bool-cases (j == i)) [
      | inl q ↦ rw q (or-true (elem j due))
      | inr q ↦ rw q refl
    ]

    expire_first-Fired :
        (s : Sched Handler) (now i : ℕ) (rest : List ℕ) (s' : Sched Handler)
        → inorder s.timers ≡ i ∷ rest
        → inorder (expire_first rb s i).timers ≡ rest
        → expiry s i ≤ now
        → Fired (expire_first rb s i) now s'
        → Fired s now s'
    unfolding expire_first enqueue
    expire_first-Fired s now i rest s' e e1 h f =
        let same : (j : ℕ) → expiry (expire_first rb s i) j ≡ expiry s j =
          update-all (λ j u. u.expire ≡ expiry s j) s.task i
            (record (s.task i) { status = queued; timeout = true }) refl (λ j q. refl) in
        record {
          due = i ∷ f.due;
          later = f.later;
          valid = f.valid;
          parts = e ∙ ap (◌∷◌ i) (sym e1 ∙ f.parts);
          queue_grows = f.queue_grows ∙ append_assoc s.queue (i ∷ []) f.due;
          timers_left = f.timers_left;
          due_expired = (
            h,
            All-of_count (λ j. expiry s j ≤ now) f.due
                (λ j c. omega (
                  arith,
                  same j,
                  All-of_all (λ k. expiry (expire_first rb s i) k ≤ now) f.due f.due_expired j c,
                )),
          );
          later_waits =
              All-of_count (λ j. now < expiry s j) f.later
                (λ j c. omega (
                  arith,
                  same j,
                  All-of_all (λ k. now < expiry (expire_first rb s i) k) f.later f.later_waits j c,
                ));
          told = λ j. f.told j ∙ told_first s i f.due j;
          same_expiry = λ j. f.same_expiry j ∙ same j;
        }

    fire_list-Fired :
        (fuel : ℕ) (s : Sched Handler) (now : ℕ) (xs : List ℕ)
        → inorder s.timers ≡ xs
        → length xs < fuel
        → Inv s
        → (s' : Sched Handler) × (fire rb fuel s now ≡ some s') × Fired s now s'
    unfolding fire
    fire_list-Fired zero s now xs e h v = absurd (omega arith)
    fire_list-Fired (suc fuel) s now [] e h v =
        (s, rw (laws.first-inorder s.timers, e), stop-Fired s now v (rw e tt))
    fire_list-Fired (suc fuel) s now (i ∷ rest) e h v = elim (Bool-cases (ltb now (expiry s i))) [
      | inl w ↦ (
        s,
        rw (laws.first-inorder s.timers, e, head?, w),
        stop-Fired s now v (
            rw e (
              later_than_first s now i rest (subst (Sorted (expiry s)) e v.by_expiry)
                (ltb→lt _ _ w))),
      )
      | inr w ↦
          let (v1, e1) = expire_first-Inv s i rest e v in
          let (s', q, f) =
            fire_list-Fired fuel (expire_first rb s i) now rest e1 (omega arith) v1 in
          (
            s',
            rw (laws.first-inorder s.timers, e, head?, w) q,
            expire_first-Fired s now i rest s' e e1 (ltb-false→le _ _ w) f,
          )
    ]

    -- With more fuel than there are timers, the timer loop of `spe_task_process` ends, from a
    -- scheduler that is well formed. The timers were, in order, some that are due and some that are
    -- not; the due ones are now behind the queue, told that they timed out, the others are left.
    pub fire-Fired :
        (fuel : ℕ) (s : Sched Handler) (now : ℕ)
        → length (inorder s.timers) < fuel
        → Inv s
        → (s' : Sched Handler) × (fire rb fuel s now ≡ some s') × Fired s now s'
    fire-Fired fuel s now h v = fire_list-Fired fuel s now (inorder s.timers) refl h v
