-- ===== src/Main/Live.antt =====
-- src/spe.c: the number of workers in the table of the master.
use spe.Base.{
  ℕ, zero, suc, ◌+◌, ◌≤◌, ◌<◌, ◌≡◌, ◌≢◌, refl, ap, ◌∙◌, ◌⊎◌, inl, inr, true, false, Bool-cases,
  List, [], ◌∷◌, arith, if◌then◌else◌, ◌==◌, length, All,
}
use spe.Worker.{
  Master, max_worker, put_at, get_slot, fork_in, fork_slot, fork, ForkAnswer, in_master,
  master_side, fork_error, close_fd,
}
use spe.Worker.Slots.{slot_of_lem}
use spe.Main.{fork_on, fork_all, Wait, ended, none_ended}

-- How many of `n` slots from `i` on hold a worker.
pub live_in : (ℕ → ℕ) → ℕ → ℕ → ℕ
live_in t zero i = 0
live_in t (suc n) i = if t i == 0 then live_in t n (suc i) else suc (live_in t n (suc i))

abbrev pub live : Master → ℕ
live m = live_in m.pid max_worker 0

live_in-before : (t : ℕ → ℕ) (j p n i : ℕ) → j < i → live_in (put_at t j p) n i ≡ live_in t n i
unfolding live_in
live_in-before t j p zero i h = refl
live_in-before t j p (suc n) i h =
    let other : (i == j) ≡ false = ground arith in
    let rest : live_in (put_at t j p) n (suc i) ≡ live_in t n (suc i) =
      live_in-before t j p n (suc i) (omega arith) in
    rw (other, rest) refl

-- A worker in a free slot is one more.
live_in-put_at :
    (t : ℕ → ℕ) (j p n i : ℕ)
    → t j ≡ 0
    → (p == 0) ≡ false
    → i ≤ j
    → j < i + n
    → live_in (put_at t j p) n i ≡ suc (live_in t n i)
unfolding live_in
live_in-put_at t j p zero i z q h g = absurd (omega arith)
live_in-put_at t j p (suc n) i z q h g = elim (Bool-cases (i == j)) [
  | inl c ↦
      let same : i ≡ j = ground arith in
      let free : (t i == 0) ≡ true = ground (arith, ap t same ∙ z) in
      rw (c, q, free, live_in-before t j p n (suc i) (omega arith)) refl
  | inr c ↦
      let rest : live_in (put_at t j p) n (suc i) ≡ suc (live_in t n (suc i)) =
        live_in-put_at t j p n (suc i) z q (ground arith) (omega arith) in
      elim (Bool-cases (t i == 0)) [ inl f ↦ rw (c, f, rest) refl | inr f ↦ rw (c, f, rest) refl ]
]

live_in-full : (t : ℕ → ℕ) (n i : ℕ) → ((k : ℕ) → i ≤ k → k < i + n → t k ≢ 0) → live_in t n i ≡ n
unfolding live_in
live_in-full t zero i h = refl
live_in-full t (suc n) i h = elim (Bool-cases (t i == 0)) [
  | inl f ↦ absurd (h i (omega arith) (omega arith) (ground arith))
  | inr f ↦
      let rest : live_in t n (suc i) ≡ n =
        live_in-full t n (suc i) (λ k g l. h k (omega arith) (omega arith)) in
      rw (f, rest) refl
]

live_in-bound : (t : ℕ → ℕ) (n i : ℕ) → live_in t n i ≤ n
unfolding live_in
live_in-bound t zero i = omega arith
live_in-bound t (suc n) i =
    let rest : live_in t n (suc i) ≤ n = live_in-bound t n (suc i) in
    elim (Bool-cases (t i == 0)) [ inl f ↦ rw f (omega arith) | inr f ↦ rw f (omega arith) ]

-- The fork succeeded, in the master.
abbrev pub IsForked : ForkAnswer → Type 0
IsForked a = (c : ℕ) × (d : ℕ) × (p : ℕ) × (a ≡ in_master c d p) × ((p == 0) ≡ false)

fork-live :
    (m : Master) (a : ForkAnswer)
    → IsForked a
    → ((fork m a ≡ (fork_error, m)) × (live m ≡ max_worker))
      ⊎ ((m' : Master) × (fork m a ≡ (master_side, m')) × (live m' ≡ suc (live m)))
unfolding fork fork_slot fork_in get_slot
fork-live m a (c, d, p, e, q) = elim (slot_of_lem m.pid 0 max_worker 0) [
  | inl (z, all) ↦ inl (rw z refl, live_in-full m.pid max_worker 0 all)
  | inr (j, z, s) ↦ inr (
    close_fd (record m { pid = put_at m.pid j p; notify_fd = put_at m.notify_fd j c }) d,
    rw (z, e) refl,
    live_in-put_at m.pid j p max_worker 0 s.holds q s.from s.before,
  )
]

-- The workers that `main` starts, when every fork succeeds: either there is room for all, and the table
-- holds that many more; or the table is full, and the result is an error although workers run.
pub fork_all-live :
    (answers : List ForkAnswer) (m : Master)
    → All IsForked answers
    → ((live m + length answers ≤ max_worker)
        × ((fork_all master_side answers m).0 ≡ master_side)
        × (live (fork_all master_side answers m).1 ≡ live m + length answers))
      ⊎ ((max_worker < live m + length answers)
          × ((fork_all master_side answers m).0 ≡ fork_error)
          × (live (fork_all master_side answers m).1 ≡ max_worker))
unfolding fork_all fork_on
fork_all-live [] m h =
    let small : live m ≤ max_worker = live_in-bound m.pid max_worker 0 in
    inl (omega arith, refl, omega arith)
fork_all-live (a ∷ answers) m (h, hs) = elim (fork-live m a h) [
  | inl (e, f) ↦ inr (omega arith, rw e refl, rw e f)
  | inr (m', e, f) ↦ elim (fork_all-live answers m' hs) [
    | inl (g, r, l) ↦ inl (omega arith, rw e r, rw e (omega arith))
    | inr (g, r, l) ↦ inr (omega arith, rw e r, rw e l)
  ]
]

-- A worker that has ended, and the fork that follows.
abbrev pub IsReplaced : ℕ × ForkAnswer → Type 0
IsReplaced w = ((w.0 == 0) ≡ false) × IsForked w.1

abbrev pub waits_of : List (ℕ × ForkAnswer) → List Wait
waits_of [] = none_ended ∷ []
waits_of (w ∷ ws) = ended w.0 w.1 ∷ waits_of ws
