-- ===== src/Tpool/Steps.antt =====
-- spe_tpool.c: every step keeps the invariant.
use spe.Base.{ℕ, suc, ◌+◌, ◌-◌, ◌<◌, ◌≡◌, refl, sym, ap, true, some, List, ◌∷◌, arith, length}
use mathlib.Core.Path.{subst}
use spe.Tpool.{
  Thread, User, outside, found, missed, holds, stops, released, Pool, update, inside, apply, Step,
  thread_step, once_ends, finds, misses, takes, gives, spawns, refuses, begins, stops_one, releases,
}
use spe.Tpool.Family.{total-update, occurs, occurs-cons}
use spe.Tpool.Balance.{busy, living, Loaded, give-Loaded, ThreadStep-Balance, stop-Balance}
use spe.Tpool.Inv.{
  Between, resting-load, tidy-update, Inv, turn-Owed, turn-Inv, taken-at, EmptyHanded, taken-none,
  held-rests,
}

-- The user goes on with empty hands.
user-Inv :
    (s : Pool) (u : User)
    → Inv s
    → EmptyHanded s.user
    → EmptyHanded u
    → Between u s.thread_num s.free_list
    → Inv (record s { user = u })
user-Inv s u inv e e' b = record {
  listed = λ j. omega (arith, inv.listed j, taken-none s.user j e, taken-none u j e');
  neat = inv.neat;
  running = inv.running;
  jobs = inv.jobs;
  between = b;
}

empty-at : {u v : User} → u ≡ v → EmptyHanded v → EmptyHanded u
empty-at e h = subst EmptyHanded (sym e) h

takes-Inv :
    (s : Pool) (h i : ℕ) (rest : List ℕ)
    → Inv s
    → s.user ≡ found h
    → s.free_list ≡ i ∷ rest
    → Inv (record s { user = holds h i; free_list = rest })
takes-Inv s h i rest inv e q = record {
  listed = λ j. omega (
    arith,
    inv.listed j,
    taken-none s.user j (empty-at e tt),
    ap (occurs j) q,
    occurs-cons j i rest,
    taken-at {u = holds h i} j refl,
  );
  neat = inv.neat;
  running = inv.running;
  jobs = inv.jobs;
  between = tt;
}

gives-Inv :
    (s : Pool) (h i : ℕ)
    → Inv s
    → s.user ≡ holds h i
    → Inv (record s {
      user = outside;
      accepted = s.accepted + 1;
      threads = update s.threads i (record (s.threads i) { handler = some h });
    })
gives-Inv s h i inv e =
    let (lt, rests, _) = held-rests inv e in
    let x : Thread = record (s.threads i) { handler = some h } in
    let l : Loaded (s.threads i) x = give-Loaded (s.threads i) h rests in
    record {
      listed = λ j. omega (
        arith,
        inv.listed j,
        taken-at j e,
        taken-none outside j tt,
        resting-load s.thread_num i j s.threads x lt l.rest rests,
      );
      neat = λ j. tidy-update i j s.threads x (inv.neat j) l.neat;
      running =
          omega (arith, inv.running, total-update living s.thread_num s.threads i x lt, l.lives);
      jobs = omega (arith, inv.jobs, total-update busy s.thread_num s.threads i x lt, l.jobs);
      between = tt;
    }

spawns-Inv :
    (s : Pool) (h : ℕ)
    → Inv s
    → s.user ≡ missed h
    → Inv (record s {
      user = outside;
      accepted = s.accepted + 1;
      once = s.once + 1;
      thread_run = s.thread_run + 1;
    })
spawns-Inv s h inv e = record {
  listed = λ j.
      omega (arith, inv.listed j, taken-none s.user j (empty-at e tt), taken-none outside j tt);
  neat = inv.neat;
  running = omega (arith, inv.running);
  jobs = omega (arith, inv.jobs);
  between = tt;
}

once_ends-Inv :
    (s : Pool)
    → Inv s
    → 0 < s.once
    → Inv (record s { once = s.once - 1; ended = s.ended + 1; thread_run = s.thread_run - 1 })
once_ends-Inv s inv h = record {
  listed = inv.listed;
  neat = inv.neat;
  running = omega (arith, inv.running);
  jobs = omega (arith, inv.jobs);
  between = inv.between;
}

stops_one-Inv :
    (s : Pool) (k : ℕ)
    → Inv s
    → s.user ≡ stops k
    → k < s.thread_num
    → Inv (record s {
      user = stops (suc k);
      threads = update s.threads k (record (s.threads k) { stop = true });
    })
unfolding apply
stops_one-Inv s k inv e h =
    let x : Thread = record (s.threads k) { stop = true } in
    let moved : Inv (record s { threads = update s.threads k x }) =
      turn-Inv s inv k x h inside
        (turn-Owed s inv k x h inside (stop-Balance (s.threads k) (inv.neat k))) in
    user-Inv (record s { threads = update s.threads k x }) (stops (suc k)) moved (empty-at e tt) tt
      (omega arith)

-- Every step of a thread of the pool or of its user, in any order, keeps the invariant.
pub Step-Inv : {s t : Pool} → Inv s → Step s t → Inv t
Step-Inv {s} inv (thread_step i {t} {e} h m) =
    turn-Inv s inv i t h e (turn-Owed s inv i t h e (ThreadStep-Balance (inv.neat i) m))
Step-Inv {s} inv (once_ends h) = once_ends-Inv s inv h
Step-Inv {s} inv (finds h i rest e q) =
    user-Inv s (found h) inv (empty-at e tt) tt (omega (arith, ap length q))
Step-Inv {s} inv (misses h e q) = user-Inv s (missed h) inv (empty-at e tt) tt tt
Step-Inv {s} inv (takes {h} {i} {rest} e q) = takes-Inv s h i rest inv e q
Step-Inv {s} inv (gives {h} {i} e) = gives-Inv s h i inv e
Step-Inv {s} inv (spawns {h} e) = spawns-Inv s h inv e
Step-Inv {s} inv (refuses e) = user-Inv s outside inv (empty-at e tt) tt tt
Step-Inv {s} inv (begins e) = user-Inv s (stops 0) inv (empty-at e tt) tt (omega arith)
Step-Inv {s} inv (stops_one {k} e h) = stops_one-Inv s k inv e h
Step-Inv {s} inv (releases e q) = user-Inv s released inv (empty-at e tt) tt tt
