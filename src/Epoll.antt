-- ===== src/Epoll.antt =====
-- src/spe_epoll.c and src/spe_epoll.h: which task waits for which descriptor.
-- The kernel's side, epoll_ctl, is a parameter over a state `K` of its own.
pub mod Agree
pub mod Dispatch
use spe.Base.{
  ℕ, Bool, true, false, not, Option, none, some, List, [], ◌∷◌, ltb, leb, if◌then◌else◌, ◌>>=◌,
  ◌&&◌, ◌||◌, ◌==◌,
}

-- The two bits of a mask: SPE_EPOLL_READ and SPE_EPOLL_WRITE, or EPOLLIN and EPOLLOUT.
pub record Mask : Type 0 where
  pub readable : Bool
  pub writable : Bool

-- SPE_EPOLL_NONE
abbrev pub no_event : Mask
no_event = record { readable = false; writable = false }

abbrev pub same_bit : Bool → Bool → Bool
same_bit true b = b
same_bit false b = not b

abbrev pub same_mask : Mask → Mask → Bool
same_mask m n = same_bit m.readable n.readable && same_bit m.writable n.writable

-- `m | n` and `m & ~n`
abbrev pub with_bits : Mask → Mask → Mask
with_bits m n = record { readable = m.readable || n.readable; writable = m.writable || n.writable }

abbrev pub without_bits : Mask → Mask → Mask
without_bits m n = record {
  readable = m.readable && not n.readable;
  writable = m.writable && not n.writable;
}

-- `spe_epoll_t`; a task is a number, and `none` is NULL.
pub record Entry : Type 0 where
  pub mask : Mask
  pub read_task : Option ℕ
  pub write_task : Option ℕ

-- EPOLL_CTL_ADD, EPOLL_CTL_MOD, EPOLL_CTL_DEL
pub data CtlOp : Type 0 where
  ctl_add ctl_mod ctl_del : CtlOp

-- `epolls`, `epoll_maxfd`, and what lies outside this file: the kernel and the scheduler.
pub record World (K S : Type 0) : Type 0 where
  pub epolls : ℕ → Entry
  pub maxfd : ℕ
  pub kernel : K
  pub sched : S

-- calloc: every entry is zero.
abbrev pub init_epoll : {K S : Type 0} → ℕ → K → S → World K S
init_epoll n k s = record {
  epolls = λ fd. record { mask = no_event; read_task = none; write_task = none };
  maxfd = n;
  kernel = k;
  sched = s;
}

pub ctl_op : Mask → Mask → CtlOp
ctl_op old new =
    if same_mask old no_event then ctl_add else if same_mask new no_event then ctl_del else ctl_mod

abbrev pub set_entry : (ℕ → Entry) → ℕ → Entry → ℕ → Entry
set_entry t fd e j = if j == fd then e else t j

pub set_tasks : Entry → Mask → Option ℕ → Entry
set_tasks e m t = record e {
  read_task = if m.readable then t else e.read_task;
  write_task = if m.writable then t else e.write_task;
}

module _ {K S : Type 0} (epoll_ctl : K → CtlOp → ℕ → Mask → K × Bool) where
  -- What follows epoll_ctl: the mask is recorded if the call succeeded.
  pub on_ctl : World K S → ℕ → Entry → Mask → K × Bool → World K S × Bool
  on_ctl w fd e new (k, true) =
      (record w { epolls = set_entry w.epolls fd (record e { mask = new }); kernel = k }, true)
  on_ctl w fd e new (k, false) = (record w { epolls = set_entry w.epolls fd e; kernel = k }, false)

  -- `change_epoll`, on the entry `e` for `fd` that its caller has written its task to
  pub change_epoll : World K S → ℕ → Entry → Mask → World K S × Bool
  unfolding on_ctl ctl_op
  change_epoll w fd e new =
      if same_mask e.mask new
      then (record w { epolls = set_entry w.epolls fd e }, true)
      else on_ctl w fd e new (epoll_ctl w.kernel (ctl_op e.mask new) fd new)

  unfoldable pub enable : World K S → ℕ → Mask → ℕ → World K S × Bool
  unfolding change_epoll set_tasks
  enable w fd m task =
      let e : Entry = w.epolls fd in
      if leb w.maxfd fd
      then (w, false)
      else change_epoll w fd (set_tasks e m (some task)) (with_bits e.mask m)

  unfoldable pub disable : World K S → ℕ → Mask → World K S × Bool
  unfolding change_epoll set_tasks
  disable w fd m =
      let e : Entry = w.epolls fd in
      if leb w.maxfd fd
      then (w, false)
      else change_epoll w fd (set_tasks e m none) (without_bits e.mask m)

-- `spe_task_schedule` is a parameter: a fast task runs its handler at once, which may enable and
-- disable descriptors. Its argument is a pointer that must not be NULL.
module _ {W : Type 0} (epolls : W → ℕ → Entry) (schedule : W → ℕ → W) where
  pub schedule_if : Bool → Option ℕ → W → Option W
  schedule_if false t w = some w
  schedule_if true none w = none
  schedule_if true (some t) w = some (schedule w t)

  -- The body of the loop of `spe_epoll_process`; the mask is read again for the second test.
  pub on_event : W → ℕ × Mask → Option W
  unfolding schedule_if
  on_event w ev =
      let e : Entry = epolls w ev.0 in
      schedule_if (ev.1.readable && e.mask.readable) e.read_task w >>= λ w'.
      let e' : Entry = epolls w' ev.0 in
      schedule_if (ev.1.writable && e'.mask.writable) e'.write_task w'

  -- `spe_epoll_process` behind epoll_wait, which gave these events
  unfoldable pub process_events : List (ℕ × Mask) → W → Option W
  unfolding on_event
  process_events [] w = some w
  process_events (ev ∷ evs) w = on_event w ev >>= process_events evs
