-- ===== src/Worker/Slots.antt =====
-- spe_worker.c: the slots of the table.
use mathlib.Core.List.{append_assoc}
use spe.Base.{
  ℕ, zero, suc, ◌+◌, ◌≤◌, ◌<◌, ◌≡◌, ◌≢◌, refl, sym, ap, ◌∙◌, ◌⊎◌, inl, inr, Bool, true, false, not,
  ◌&&◌, none, some, [], ◌∷◌, ◌++◌, arith, ◌==◌, ==_self, Bool-cases,
}
use spe.Worker.{
  Master, max_worker, put_at, slot_of, get_slot, fork_in, fork_slot, fork, reset_slot, reset,
  in_master, master_side, fork_error, close_fd,
}

-- The lowest slot from `i` on that holds `p`, among `n`.
pub record IsSlot (t : ℕ → ℕ) (p n i j : ℕ) : Type 0 where
  pub from : i ≤ j
  pub before : j < i + n
  pub holds : t j ≡ p
  pub lowest : (k : ℕ) → i ≤ k → k < j → t k ≢ p

not_first :
    (t : ℕ → ℕ) (p i e : ℕ)
    → (t i == p) ≡ false
    → ((k : ℕ) → suc i ≤ k → k < e → t k ≢ p)
    → (k : ℕ) → i ≤ k
    → k < e
    → t k ≢ p
not_first t p i e q rest k h g same = elim (Bool-cases (k == i)) [
  | inl c ↦
      let here : k ≡ i = ground arith in
      let at : t i ≡ p = ap t (sym here) ∙ same in absurd (ground (arith, at, q))
  | inr c ↦ rest k (ground arith) g same
]

pub slot_of_lem :
    (t : ℕ → ℕ) (p n i : ℕ)
    → ((slot_of t p n i ≡ none) × ((k : ℕ) → i ≤ k → k < i + n → t k ≢ p))
      ⊎ ((j : ℕ) × (slot_of t p n i ≡ some j) × IsSlot t p n i j)
unfolding slot_of
slot_of_lem t p zero i = inl (refl, λ k h g. absurd (omega arith))
slot_of_lem t p (suc n) i = elim (Bool-cases (t i == p)) [
  | inl q ↦ inr (
    i,
    rw q refl,
    record {
      from = omega arith;
      before = omega arith;
      holds = ground arith;
      lowest = λ k h g. absurd (omega arith);
    },
  )
  | inr q ↦ elim (slot_of_lem t p n (suc i)) [
    | inl (e, all) ↦ inl (rw q e, λ k h g. not_first t p i (suc i + n) q all k h (omega arith))
    | inr (j, e, s) ↦ inr (
      j,
      rw q e,
      record {
        from = omega (arith, s.from);
        before = omega (arith, s.before);
        holds = s.holds;
        lowest = λ k h g. not_first t p i j q s.lowest k h g;
      },
    )
  ]
]

-- The slot of a new worker is the only one with its pid.
slot_of-put_at :
    (t : ℕ → ℕ) (p j : ℕ)
    → j < max_worker
    → ((k : ℕ) → k < max_worker → t k ≢ p)
    → slot_of (put_at t j p) p max_worker 0 ≡ some j
slot_of-put_at t p j h fresh = elim (slot_of_lem (put_at t j p) p max_worker 0) [
  | inl (e, all) ↦ absurd (all j (omega arith) (omega arith) (rw (==_self j) refl))
  | inr (j', e, s) ↦ elim (Bool-cases (j' == j)) [
    | inl c ↦ let same : j' ≡ j = ground arith in e ∙ ap some same
    | inr c ↦ absurd (fresh j' s.before (rw c at s.holds))
  ]
]

put_back : (t : ℕ → ℕ) (j p : ℕ) → t j ≡ 0 → (k : ℕ) → put_at (put_at t j p) j 0 k ≡ t k
put_back t j p z k = elim (Bool-cases (k == j)) [
  | inl c ↦ let same : k ≡ j = ground arith in rw c (sym (ap t same ∙ z))
  | inr c ↦ rw c refl
]

-- What a worker leaves behind when it was forked and has ended.
pub record Returned (m m' : Master) (a b : ℕ) : Type 0 where
  pub pids : (k : ℕ) → m'.pid k ≡ m.pid k
  pub both_closed : m'.closed ≡ m.closed ++ (b ∷ a ∷ [])

-- No slot is free, among `n` from `i` on.
abbrev pub full : (ℕ → ℕ) → ℕ → ℕ → Bool
full t zero i = true
full t (suc n) i = not (t i == 0) && full t n (suc i)

full-none : (t : ℕ → ℕ) (n i : ℕ) → ((k : ℕ) → i ≤ k → k < i + n → t k ≢ 0) → full t n i ≡ true
full-none t zero i h = refl
full-none t (suc n) i h = elim (Bool-cases (t i == 0)) [
  | inl q ↦
      let zero_here : t i ≡ 0 = ground arith in absurd (h i (omega arith) (omega arith) zero_here)
  | inr q ↦ rw q (full-none t n (suc i) (λ k g l. h k (omega arith) (omega arith)))
]

returned :
    (m : Master) (j a b p : ℕ)
    → m.pid j ≡ 0
    → Returned m
        (close_fd
          (record m {
            pid = put_at (put_at m.pid j p) j 0;
            notify_fd = put_at m.notify_fd j a;
            closed = m.closed ++ (b ∷ []);
          })
          (put_at m.notify_fd j a j))
        a
        b
returned m j a b p z = record {
  pids = put_back m.pid j p z;
  both_closed = rw (==_self j) (append_assoc m.closed (b ∷ []) (a ∷ []));
}

-- Let the table not hold the pid `p`. Either every slot is taken, and `spe_worker_fork` fails and
-- changes nothing, or the lowest free slot gets the worker, and `spe_worker_reset` for its pid
-- finds it, after which the table holds the pids of before, and both ends of the channel are closed.
pub reset-fork :
    (m : Master) (a b p : ℕ)
    → ((k : ℕ) → k < max_worker → m.pid k ≢ p)
    → ((fork m (in_master a b p) ≡ (fork_error, m)) × (full m.pid max_worker 0 ≡ true))
      ⊎ (((fork m (in_master a b p)).0 ≡ master_side)
          × ((reset (fork m (in_master a b p)).1 p).0 ≡ true)
          × Returned m (reset (fork m (in_master a b p)).1 p).1 a b
          × ((j : ℕ) × IsSlot m.pid 0 max_worker 0 j × ((fork m (in_master a b p)).1.pid j ≡ p)))
unfolding fork fork_slot fork_in get_slot reset reset_slot
reset-fork m a b p fresh = elim (slot_of_lem m.pid 0 max_worker 0) [
  | inl (e, all) ↦ inl (rw e refl, full-none m.pid max_worker 0 all)
  | inr (j, e, s) ↦
      let found = slot_of-put_at m.pid p j s.before fresh in
      inr (
        rw e refl,
        rw (e, found) refl,
        rw (e, found) (returned m j a b p s.holds),
        (j, s, rw (e, ==_self j) refl),
      )
]
