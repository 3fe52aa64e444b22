-- ===== src/Signal/Handle.antt =====
-- spe_signal.c, `spe_signal_process`: what one round of handling does.
use mathlib.Core.Path.{subst}
use spe.Base.{
  ℕ, zero, suc, ◌≤◌, ◌≡◌, refl, sym, ap, ◌∙◌, inl, inr, false, List, [], ◌∷◌, arith, ◌==◌, ==_self,
  Bool-cases,
}
use spe.Task.Timers.{count}
use spe.Signal.{Desc, Signals, set_at, call_handler, handle_one, handle_all, process_signals}
use spe.Signal.Arrive.{Inv, once_if}

module _ {S : Type 0} (call : ℕ → ℕ → S → S) where
  -- The handlers of the signals, called in order.
  pub call_all : (ℕ → Desc) → List ℕ → S → S
  call_all st [] w = w
  call_all st (sig ∷ sigs) w = call_all st sigs (call_handler call (st sig).handler sig w)

  -- What the loop is about to see: each signal that is left has its counter and handler.
  record Before (st now : ℕ → Desc) (sigs : List ℕ) : Type 0 where
    handlers : (i : ℕ) → (now i).handler ≡ (st i).handler
    pending : (i : ℕ) → count i sigs ≡ once_if (now i).cnt

  handle_one_lem :
      (st : ℕ → Desc) (w : S) (sig : ℕ)
      → ((st sig).cnt == 0) ≡ false
      → handle_one call st w sig
        ≡ (set_at st sig (record (st sig) { cnt = 0 }), call_handler call (st sig).handler sig w)
  unfolding handle_one
  handle_one_lem st w sig z = rw z refl

  abbrev Handled : (ℕ → Desc) → S → (ℕ → Desc) × S → Type 0
  Handled st w r =
      (r.1 ≡ w) × ((i : ℕ) → (r.0 i).cnt ≡ 0) × ((i : ℕ) → (r.0 i).handler ≡ (st i).handler)

  handle_all_lem :
      (st : ℕ → Desc) (sigs : List ℕ) (now : ℕ → Desc) (w : S)
      → Before st now sigs
      → Handled st (call_all st sigs w) (handle_all call sigs now w)
  unfolding handle_all call_all
  handle_all_lem st [] now w b = (refl, (λ i. idle (now i).cnt (b.pending i)), b.handlers)
    where
      idle : (n : ℕ) → 0 ≡ once_if n → n ≡ 0
      idle zero h = refl
      idle (suc n) h = absurd (omega arith)
  handle_all_lem st (sig ∷ sigs) now w b =
      let z : ((now sig).cnt == 0) ≡ false = counted (now sig).cnt (b.pending sig) in
      let now1 : ℕ → Desc = set_at now sig (record (now sig) { cnt = 0 }) in
      let b1 : Before st now1 sigs = record {
        handlers = λ i. same_handler i;
        pending = λ i. still_pending i;
      } in
      let step =
        handle_one_lem now w sig z ∙ ap (λ h. (now1, call_handler call h sig w)) (b.handlers sig) in
      subst (λ o. Handled st (call_all st (sig ∷ sigs) w) (handle_all call sigs o.0 o.1)) (sym step)
        (handle_all_lem st sigs now1 (call_handler call (st sig).handler sig w) b1)
    where
      counted : (n : ℕ) → count sig (sig ∷ sigs) ≡ once_if n → (n == 0) ≡ false
      counted zero h = absurd (ground (arith, h, ==_self sig))
      counted (suc n) h = ground arith

      bound : (n : ℕ) → once_if n ≤ 1
      bound zero = omega arith
      bound (suc n) = omega arith

      same_handler :
          (i : ℕ) → (set_at now sig (record (now sig) { cnt = 0 }) i).handler ≡ (st i).handler
      same_handler i = elim (Bool-cases (i == sig)) [
        | inl q ↦
            let same : sig ≡ i = ground arith in
            rw q (ap (λ k. (now k).handler) same ∙ b.handlers i)
        | inr q ↦ rw q (b.handlers i)
      ]

      still_pending :
          (i : ℕ) → count i sigs ≡ once_if (set_at now sig (record (now sig) { cnt = 0 }) i).cnt
      still_pending i = elim (Bool-cases (i == sig)) [
        | inl q ↦ rw q (ground (arith, b.pending i, bound (now i).cnt))
        | inr q ↦ rw q (ground (arith, b.pending i))
      ]

  -- From a well-formed state, `spe_signal_process` calls the handler of each queued signal once, in
  -- the order of arrival, and leaves the queue empty, every counter zero and the handlers as they
  -- were, so that the state is well formed again with nothing counted.
  pub process_signals-Inv :
      (s : Signals) (n : ℕ) (w : S)
      → Inv s n
      → ((process_signals call s w).1 ≡ call_all s.state s.queue w)
        × Inv (process_signals call s w).0 0
        × ((i : ℕ) → ((process_signals call s w).0.state i).handler ≡ (s.state i).handler)
  unfolding process_signals
  process_signals-Inv s n w v =
      let (p, q, r) =
        handle_all_lem s.state s.queue s.state w
          (record { handlers = λ i. refl; pending = v.queued_once }) in
      (
        p,
        record {
          queued_once = λ i. sym (ap once_if (q i));
          in_range = λ i h. q i;
          few = λ i. omega (arith, q i);
        },
        r,
      )
