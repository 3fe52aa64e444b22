-- ===== src/Tests/Events.antt =====
-- spe_epoll.c at concrete inputs.
use spe.Base.{
  ℕ, ◌≡◌, refl, inl, inr, Bool, true, false, none, some, List, [], ◌∷◌, ◌++◌, arith, ◌==◌,
  if◌then◌else◌, Bool-cases,
}
use spe.Epoll.{Mask, no_event, Entry, CtlOp, World, init_epoll, process_events}
use spe.Epoll.Agree.{
  after_ctl, IsEpoll, EpollCall, enables, disables, perform_all, Agrees, perform_all-Agrees,
}
use spe.Epoll.Dispatch.{IsReady, woken, schedule_all, process_events-woken}

abbrev both : Mask
both = record { readable = true; writable = true }

abbrev reads : Mask
reads = record { readable = true; writable = false }

-- A kernel that refuses descriptor 3.
abbrev pub plain_ctl : (ℕ → Mask) → CtlOp → ℕ → Mask → (ℕ → Mask) × Bool
plain_ctl k op fd m =
    if fd == 3 then (k, false) else ((λ j. if j == fd then after_ctl op m else k j), true)

pub plain_ctl-IsEpoll : IsEpoll plain_ctl (λ k j. k j)
plain_ctl-IsEpoll = record {
  done = λ k op fd m e. elim (Bool-cases (fd == 3)) [
    | inl q ↦ absurd (ground (arith, rw q at e))
    | inr q ↦ rw q (ground arith)
  ];
  failed = λ k op fd m e. elim (Bool-cases (fd == 3)) [
    | inl q ↦ rw q refl
    | inr q ↦ absurd (ground (arith, rw q at e))
  ];
  others =
      λ k op fd m j n. elim (Bool-cases (fd == 3)) [ inl q ↦ rw q refl | inr q ↦ rw (q, n) refl ];
}

abbrev start : World (ℕ → Mask) (List ℕ)
start = init_epoll 100 (λ j. no_event) []

start-Agrees : Agrees {S = List ℕ} plain_ctl (λ k j. k j) start
start-Agrees = record { same = λ fd. refl }

abbrev epoll_calls : List EpollCall
epoll_calls =
    enables 5 both 1
    ∷ enables 3 reads 2
    ∷ disables 5 reads
    ∷ enables 200 reads 4
    ∷ enables 7 reads 6
    ∷ []

perform_all-Agrees_example :
    Agrees {S = List ℕ} plain_ctl (λ k j. k j) (perform_all plain_ctl start epoll_calls)
perform_all-Agrees_example =
    perform_all-Agrees plain_ctl (λ k j. k j) plain_ctl-IsEpoll epoll_calls start start-Agrees

-- Descriptor 5 waits for both events, with tasks 1 and 2; 7 for none.
abbrev table : ℕ → Entry
table fd =
    if fd == 5
    then record { mask = both; read_task = some 1; write_task = some 2 }
    else record { mask = no_event; read_task = none; write_task = none }

table-IsReady : (fd : ℕ) → IsReady (table fd)
table-IsReady fd = elim (Bool-cases (fd == 5)) [
  | inl q ↦ rw q (record { reader = inr (1, refl); writer = inr (2, refl) })
  | inr q ↦ rw q (record { reader = inl refl; writer = inl refl })
]

abbrev log : List ℕ → ℕ → List ℕ
log w i = w ++ (i ∷ [])

process_events-woken_example :
    process_events (λ w. table) log ((7, both) ∷ (5, both) ∷ (5, reads) ∷ []) []
    ≡ some (schedule_all log [] (woken table ((7, both) ∷ (5, both) ∷ (5, reads) ∷ [])))
process_events-woken_example =
    process_events-woken (λ w. table) log (λ w i. refl) ((7, both) ∷ (5, both) ∷ (5, reads) ∷ []) []
      table-IsReady
