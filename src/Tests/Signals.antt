-- ===== src/Tests/Signals.antt =====
-- spe_signal.c at concrete inputs.
use spe.Base.{
  ℕ, ◌≡◌, refl, some, List, [], ◌∷◌, ◌++◌, arith, inl, inr, Bool-cases, ◌==◌, if◌then◌else◌,
}
use spe.Signal.{Signals, sig_dfl, process_signals}
use spe.Signal.Arrive.{Inv}
use spe.Signal.Handle.{call_all, process_signals-Inv}

-- Every signal has its number as handler, and none has arrived.
abbrev quiet : Signals
quiet = record {
  queue = [];
  state = λ i. record { cnt = 0; handler = some i };
  told = λ i. sig_dfl;
}

abbrev arrivals : List ℕ
arrivals = 17 ∷ 1 ∷ 17 ∷ 15 ∷ []

abbrev note_call : ℕ → ℕ → List ℕ → List ℕ
note_call h sig w = w ++ (h ∷ [])

-- Signal 9 has arrived.
abbrev busy : Signals
busy = record {
  queue = 9 ∷ [];
  state = λ i. record { cnt = if i == 9 then 1 else 0; handler = some i };
  told = λ i. sig_dfl;
}

busy-Inv : Inv busy 1
busy-Inv = record {
  queued_once =
      λ i. elim (Bool-cases (i == 9)) [ inl q ↦ rw q (ground arith) | inr q ↦ rw q (ground arith) ];
  in_range =
      λ i h. elim (Bool-cases (i == 9)) [ inl q ↦ absurd (ground arith) | inr q ↦ rw q refl ];
  few = λ i. elim (Bool-cases (i == 9)) [ inl q ↦ rw q (omega arith) | inr q ↦ rw q (omega arith) ];
}

process_signals-Inv_example :
    ((process_signals note_call busy []).1 ≡ call_all note_call busy.state busy.queue [])
    × Inv (process_signals note_call busy []).0 0
    × ((i : ℕ) → ((process_signals note_call busy []).0.state i).handler ≡ (busy.state i).handler)
process_signals-Inv_example = process_signals-Inv note_call busy 1 [] busy-Inv
