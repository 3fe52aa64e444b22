-- ===== src/Signal.antt =====
-- src/spe_signal.c: signals are counted and queued when they arrive, and handled in the event loop.
-- A signal is a natural number, so the tests for a negative one are left out. A handler is a number;
-- what it does to the state `S` outside this file is a parameter.
pub mod Arrive
pub mod Handle
use spe.Base.{
  ℕ, zero, suc, ◌+◌, ◌-◌, ◌%◌, ◌^◌, Bool, true, false, not, Option, none, some, List, [], ◌∷◌, ◌++◌,
  ltb, leb, if◌then◌else◌, ◌==◌, ◌&&◌, ◌>>=◌, length,
}

abbrev pub max_signal : ℕ
max_signal = 256

-- `spe_signal_t`; `none` is a NULL handler.
pub record Desc : Type 0 where
  pub cnt : ℕ
  pub handler : Option ℕ

-- What signal () was last told: SIG_IGN, SIG_DFL, or `signal_common_handler`.
pub data Disposition : Type 0 where
  sig_ign sig_dfl common : Disposition

-- The argument of `spe_signal_register`.
pub data Action : Type 0 where
  null ignore default : Action
  custom : ℕ → Action

-- `signal_queue` up to `signal_queue_len`, `signal_state`, and the kernel's dispositions.
pub record Signals : Type 0 where
  pub queue : List ℕ
  pub state : ℕ → Desc
  pub told : ℕ → Disposition

abbrev pub set_at {ℓ} : {A : Type ℓ} → (ℕ → A) → ℕ → A → ℕ → A
set_at f i a j = if j == i then a else f j

-- `signal_init`
pub signal_init : Signals → Signals
signal_init s = record s { queue = []; state = λ i. record { cnt = 0; handler = none } }

-- `signal_state[sig]`; `none` is an access outside the array.
abbrev pub desc_at : Signals → ℕ → Option Desc
desc_at s sig = if ltb sig max_signal then some (s.state sig) else none

abbrev pub tell : Signals → ℕ → Disposition → Signals
tell s sig d = record s { told = set_at s.told sig d }

-- The counter and the queue, for a signal with a handler.
pub note : Signals → ℕ → Desc → Signals
note s sig d = record s {
  queue = if d.cnt == 0 && ltb (length s.queue) max_signal then s.queue ++ (sig ∷ []) else s.queue;
  state = set_at s.state sig (record d { cnt = (d.cnt + 1) % 2 ^ 32 });
}

pub on_handler : Signals → ℕ → Desc → Option ℕ → Signals
unfolding note
on_handler s sig d none = tell s sig sig_ign
on_handler s sig d (some h) = tell (note s sig d) sig common

-- `signal_common_handler`; the test is `sig > MAX_SIGNAL`.
unfoldable pub common_handler : Signals → ℕ → Option Signals
unfolding on_handler
common_handler s sig =
    if ltb max_signal sig
    then some (tell s sig sig_ign)
    else (desc_at s sig >>= λ d. some (on_handler s sig d d.handler))

pub registered : Signals → ℕ → Action → Signals
registered s sig (custom h) =
    tell (record s { state = set_at s.state sig (record { cnt = 0; handler = some h }) }) sig common
registered s sig default =
    tell (record s { state = set_at s.state sig (record { cnt = 0; handler = none }) }) sig sig_dfl
registered s sig a =
    tell (record s { state = set_at s.state sig (record { cnt = 0; handler = none }) }) sig sig_ign

-- `spe_signal_register`
unfoldable pub register : Signals → ℕ → Action → Option Signals
unfolding registered
register s sig a =
    if ltb max_signal sig then some s else (desc_at s sig >>= λ d. some (registered s sig a))

module _ {S : Type 0} (call : ℕ → ℕ → S → S) where
  pub call_handler : Option ℕ → ℕ → S → S
  call_handler none sig w = w
  call_handler (some h) sig w = call h sig w

  -- The body of the loop of `spe_signal_process`.
  pub handle_one : (ℕ → Desc) → S → ℕ → (ℕ → Desc) × S
  unfolding call_handler
  handle_one st w sig =
      if (st sig).cnt == 0
      then (st, w)
      else (set_at st sig (record (st sig) { cnt = 0 }), call_handler (st sig).handler sig w)

  pub handle_all : List ℕ → (ℕ → Desc) → S → (ℕ → Desc) × S
  unfolding handle_one
  handle_all [] st w = (st, w)
  handle_all (sig ∷ sigs) st w = handle_all sigs (handle_one st w sig).0 (handle_one st w sig).1

  -- `spe_signal_process`; signals are blocked while the handlers run.
  unfoldable pub process_signals : Signals → S → Signals × S
  unfolding handle_all
  process_signals s w =
      let r : (ℕ → Desc) × S = handle_all s.queue s.state w in
      (record s { queue = []; state = r.0 }, r.1)
