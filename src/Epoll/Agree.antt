-- ===== src/Epoll/Agree.antt =====
-- spe_epoll.c: the table and the kernel agree on what is watched.
use spe.Base.{
  ℕ, ◌≡◌, refl, sym, ap, ◌∙◌, inl, inr, Bool, true, false, none, some, List, [], ◌∷◌, arith, leb,
  ◌==◌, if◌then◌else◌, ◌&&◌, Bool-cases,
}
use spe.Epoll.{
  Mask, no_event, same_bit, same_mask, with_bits, without_bits, Entry, CtlOp, ctl_add, ctl_mod,
  ctl_del, World, ctl_op, set_entry, set_tasks, on_ctl, change_epoll, enable, disable,
}

-- What a descriptor is watched for after a successful call.
abbrev pub after_ctl : CtlOp → Mask → Mask
after_ctl ctl_add m = m
after_ctl ctl_mod m = m
after_ctl ctl_del m = no_event

-- The documented behaviour of epoll_ctl: EPOLL_CTL_ADD and EPOLL_CTL_MOD set the events, and
-- EPOLL_CTL_DEL ends the watch; on failure nothing changes; other descriptors are left alone.
pub record IsEpoll {K : Type 0} (epoll_ctl : K → CtlOp → ℕ → Mask → K × Bool)
    (watched : K → ℕ → Mask) : Type 0 where
  pub done :
      (k : K) (op : CtlOp) (fd : ℕ) (m : Mask)
      → (epoll_ctl k op fd m).1 ≡ true
      → watched (epoll_ctl k op fd m).0 fd ≡ after_ctl op m
  pub failed :
      (k : K) (op : CtlOp) (fd : ℕ) (m : Mask)
      → (epoll_ctl k op fd m).1 ≡ false
      → watched (epoll_ctl k op fd m).0 fd ≡ watched k fd
  pub others :
      (k : K) (op : CtlOp) (fd : ℕ) (m : Mask) (j : ℕ)
      → (j == fd) ≡ false
      → watched (epoll_ctl k op fd m).0 j ≡ watched k j

same_bit-eq : (b c : Bool) → same_bit b c ≡ true → b ≡ c
same_bit-eq true true h = refl
same_bit-eq false false h = refl
same_bit-eq true false h = sym h
same_bit-eq false true h = h

both_true : (a b : Bool) → (a && b) ≡ true → (a ≡ true) × (b ≡ true)
both_true true b h = (refl, h)
both_true false b h = absurd (ground (arith, h))

same_mask-eq : (m n : Mask) → same_mask m n ≡ true → m ≡ n
same_mask-eq m n h =
    let (r, w) = both_true (same_bit m.readable n.readable) (same_bit m.writable n.writable) h in
    let first : m ≡ record m { readable = n.readable } =
      ap (λ b. record m { readable = b }) (same_bit-eq m.readable n.readable r) in
    let second : record m { readable = n.readable } ≡ n =
      ap (λ b. record n { writable = b }) (same_bit-eq m.writable n.writable w) in
    first ∙ second

after_ctl-ctl_op :
    (old new : Mask) → same_mask old new ≡ false → after_ctl (ctl_op old new) new ≡ new
unfolding ctl_op
after_ctl-ctl_op old new h = elim (Bool-cases (same_mask old no_event)) [
  | inl a ↦ rw a refl
  | inr a ↦ elim (Bool-cases (same_mask new no_event)) [
    | inl b ↦ rw (a, b) (sym (same_mask-eq new no_event b))
    | inr b ↦ rw (a, b) refl
  ]
]

-- A call of the interface.
pub data EpollCall : Type 0 where
  enables : ℕ → Mask → ℕ → EpollCall
  disables : ℕ → Mask → EpollCall

module _ {K S : Type 0} (epoll_ctl : K → CtlOp → ℕ → Mask → K × Bool) where
  unfoldable pub perform : World K S → EpollCall → World K S × Bool
  perform w (enables fd m task) = enable epoll_ctl w fd m task
  perform w (disables fd m) = disable epoll_ctl w fd m

  unfoldable pub perform_all : World K S → List EpollCall → World K S
  unfolding perform
  perform_all w [] = w
  perform_all w (c ∷ cs) = perform_all (perform w c).0 cs

  -- None of this reaches the scheduler.
  on_ctl-sched :
      (w : World K S) (fd : ℕ) (e : Entry) (new : Mask) (r : K × Bool)
      → (on_ctl epoll_ctl w fd e new r).0.sched ≡ w.sched
  unfolding on_ctl
  on_ctl-sched w fd e new (k, true) = refl
  on_ctl-sched w fd e new (k, false) = refl

  either-sched :
      (s : S) (b : Bool) (v w : World K S × Bool)
      → v.0.sched ≡ s
      → w.0.sched ≡ s
      → (if b then v else w).0.sched ≡ s
  either-sched s true v w h k = h
  either-sched s false v w h k = k

  change_epoll-sched :
      (w : World K S) (fd : ℕ) (e : Entry) (new : Mask)
      → (change_epoll epoll_ctl w fd e new).0.sched ≡ w.sched
  unfolding change_epoll
  change_epoll-sched w fd e new =
      either-sched w.sched (same_mask e.mask new) _ _ refl
        (on_ctl-sched w fd e new (epoll_ctl w.kernel (ctl_op e.mask new) fd new))

  perform-sched : (w : World K S) (c : EpollCall) → (perform w c).0.sched ≡ w.sched
  unfolding perform enable disable set_tasks
  perform-sched w (enables fd m task) =
      let e : Entry = w.epolls fd in
      either-sched w.sched (leb w.maxfd fd) (w, false) _ refl
        (change_epoll-sched w fd (set_tasks e m (some task)) (with_bits e.mask m))
  perform-sched w (disables fd m) =
      let e : Entry = w.epolls fd in
      either-sched w.sched (leb w.maxfd fd) (w, false) _ refl
        (change_epoll-sched w fd (set_tasks e m none) (without_bits e.mask m))

  pub perform_all-sched : (cs : List EpollCall) (w : World K S) → (perform_all w cs).sched ≡ w.sched
  unfolding perform_all
  perform_all-sched [] w = refl
  perform_all-sched (c ∷ cs) w = perform_all-sched cs (perform w c).0 ∙ perform-sched w c

module _ {K S : Type 0} (epoll_ctl : K → CtlOp → ℕ → Mask → K × Bool) (watched : K → ℕ → Mask) where
  pub record Agrees (w : World K S) : Type 0 where
    pub same : (fd : ℕ) → watched w.kernel fd ≡ (w.epolls fd).mask

  module _ (laws : IsEpoll epoll_ctl watched) where
    on_ctl-Agrees :
        (w : World K S) (fd : ℕ) (e : Entry) (old new : Mask) (r : Bool)
        → Agrees w
        → e.mask ≡ (w.epolls fd).mask
        → same_mask old new ≡ false
        → (epoll_ctl w.kernel (ctl_op old new) fd new).1 ≡ r
        → Agrees (on_ctl epoll_ctl w fd e new ((epoll_ctl w.kernel (ctl_op old new) fd new).0, r)).0
    unfolding on_ctl
    on_ctl-Agrees w fd e old new true v h d s = record {
      same = λ j. elim (Bool-cases (j == fd)) [
        | inl q ↦
            let at : j ≡ fd = ground arith in
            rw q (
              ap (watched (epoll_ctl w.kernel (ctl_op old new) fd new).0) at
              ∙ laws.done w.kernel (ctl_op old new) fd new s
              ∙ after_ctl-ctl_op old new d)
        | inr q ↦ rw q (laws.others w.kernel (ctl_op old new) fd new j q ∙ v.same j)
      ];
    }
    on_ctl-Agrees w fd e old new false v h d s = record {
      same = λ j. elim (Bool-cases (j == fd)) [
        | inl q ↦
            let at : j ≡ fd = ground arith in
            rw q (
              ap (watched (epoll_ctl w.kernel (ctl_op old new) fd new).0) at
              ∙ laws.failed w.kernel (ctl_op old new) fd new s
              ∙ v.same fd
              ∙ sym h)
        | inr q ↦ rw q (laws.others w.kernel (ctl_op old new) fd new j q ∙ v.same j)
      ];
    }

    set_entry-Agrees :
        (w : World K S) (fd : ℕ) (e : Entry)
        → Agrees w
        → e.mask ≡ (w.epolls fd).mask
        → Agrees (record w { epolls = set_entry w.epolls fd e })
    set_entry-Agrees w fd e v h = record {
      same = λ j. elim (Bool-cases (j == fd)) [
        | inl q ↦
            let at : j ≡ fd = ground arith in
            rw q (v.same j ∙ ap (λ k. (w.epolls k).mask) at ∙ sym h)
        | inr q ↦ rw q (v.same j)
      ];
    }

    change_epoll-Agrees :
        (w : World K S) (fd : ℕ) (e : Entry) (new : Mask)
        → Agrees w
        → e.mask ≡ (w.epolls fd).mask
        → Agrees (change_epoll epoll_ctl w fd e new).0
    unfolding change_epoll
    change_epoll-Agrees w fd e new v h = elim (Bool-cases (same_mask e.mask new)) [
      | inl q ↦ rw q (set_entry-Agrees w fd e v h)
      | inr q ↦ rw q (
          on_ctl-Agrees w fd e e.mask new (epoll_ctl w.kernel (ctl_op e.mask new) fd new).1 v h q
            refl)
    ]

    either-Agrees :
        (b : Bool) (v w : World K S × Bool)
        → Agrees v.0
        → Agrees w.0
        → Agrees (if b then v else w).0
    either-Agrees true v w h k = h
    either-Agrees false v w h k = k

    perform-Agrees : (w : World K S) (c : EpollCall) → Agrees w → Agrees (perform epoll_ctl w c).0
    unfolding perform enable disable set_tasks
    perform-Agrees w (enables fd m task) v =
        let e : Entry = w.epolls fd in
        either-Agrees (leb w.maxfd fd) (w, false) _ v
          (change_epoll-Agrees w fd (set_tasks e m (some task)) (with_bits e.mask m) v refl)
    perform-Agrees w (disables fd m) v =
        let e : Entry = w.epolls fd in
        either-Agrees (leb w.maxfd fd) (w, false) _ v
          (change_epoll-Agrees w fd (set_tasks e m none) (without_bits e.mask m) v refl)

    -- If the kernel watches each descriptor for the events of its mask, it does so after any
    -- sequence of `spe_epoll_enable` and `spe_epoll_disable`, whether or not epoll_ctl succeeds.
    pub perform_all-Agrees :
        (cs : List EpollCall) (w : World K S) → Agrees w → Agrees (perform_all epoll_ctl w cs)
    unfolding perform_all
    perform_all-Agrees [] w v = v
    perform_all-Agrees (c ∷ cs) w v =
        perform_all-Agrees cs (perform epoll_ctl w c).0 (perform-Agrees w c v)
