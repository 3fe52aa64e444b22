-- ===== src/Util/Title/Ranges.antt =====
-- spe_util.c: the range that the two loops of `spe_init_proc_title` find meets no string that stays.
use spe.Base.{
  ℕ, ◌+◌, ◌≤◌, ◌<◌, ◌≡◌, refl, ap, ◌⊎◌, inl, inr, List, [], ◌∷◌, arith, ◌==◌, if◌then◌else◌, map,
  All, Bool-cases,
}
use mathlib.Core.Path.{subst}
use spe.Util.Title.{Str, size, walk, move, env_size}

-- The bytes from `a` to `b`, and `n` bytes from `c` on, have none in common.
abbrev pub Clears : ℕ → ℕ → ℕ → ℕ → Type 0
Clears a b c n = (b ≤ c) ⊎ (c + n ≤ a)

abbrev pub Clear : ℕ → ℕ → Str → Type 0
Clear a b s = Clears a b s.addr (size s)

-- A string does not meet `n` bytes from `c` on.
abbrev pub Beside : ℕ → ℕ → Str → Type 0
Beside c n s = Clears s.addr (s.addr + size s) c n

abbrev pub Apart : Str → Str → Type 0
Apart t s = Beside t.addr (size t) s

-- Each is apart from those behind it.
abbrev pub AllApart : List Str → Type 0
AllApart [] = Unit
AllApart (s ∷ ss) = All (λ t. Apart t s) ss × All (Apart s) ss × AllApart ss

pub All-weaken :
    {P Q : Str → Type 0} (ss : List Str) → ((s : Str) → P s → Q s) → All P ss → All Q ss
All-weaken [] f h = tt
All-weaken (s ∷ ss) f h = (f s h.0, All-weaken ss f h.1)

pub All-both :
    {P Q R : Str → Type 0} (ss : List Str)
    → ((s : Str) → P s → Q s → R s)
    → All P ss
    → All Q ss
    → All R ss
All-both [] f h k = tt
All-both (s ∷ ss) f h k = (f s h.0 k.0, All-both ss f h.1 k.1)

-- The range grows by a string that is beside the bytes.
pub Clears-grow :
    (a b c n : ℕ) (s : Str)
    → b ≡ s.addr
    → 0 < n
    → Clears a b c n
    → Beside c n s
    → Clears a (b + size s) c n
Clears-grow a b c n s e pos (inl h) (inl k) = inl (omega arith)
Clears-grow a b c n s e pos (inl h) (inr k) = absurd (omega arith)
Clears-grow a b c n s e pos (inr h) k = inr h

pub walk-le : (b a : ℕ) (ss : List Str) → a ≤ b → a ≤ walk b ss
unfolding walk
walk-le b a [] h = h
walk-le b a (s ∷ ss) h = walk-le (if b == s.addr then s.addr + size s else b) a ss (ground arith)

pub walk-Clears :
    (a b c n : ℕ) (ss : List Str)
    → 0 < n
    → Clears a b c n
    → All (Beside c n) ss
    → Clears a (walk b ss) c n
unfolding walk
walk-Clears a b c n [] pos h k = h
walk-Clears a b c n (s ∷ ss) pos h k = elim (Bool-cases (b == s.addr)) [
  | inl q ↦
      let e : b ≡ s.addr = ground arith in
      let grown : Clears a (s.addr + size s) c n =
        subst (λ l. Clears a (l + size s) c n) e (Clears-grow a b c n s e pos h k.0) in
      rw q (walk-Clears a (s.addr + size s) c n ss pos grown k.1)
  | inr q ↦ rw q (walk-Clears a b c n ss pos h k.1)
]

pub move-Clears :
    (a b p c n : ℕ) (es : List Str)
    → 0 < n
    → Clears a b c n
    → All (Beside c n) es
    → Clears a (move b p es).0 c n
unfolding move
move-Clears a b p c n [] pos h k = h
move-Clears a b p c n (e ∷ es) pos h k = elim (Bool-cases (b == e.addr)) [
  | inl q ↦ rw q (
      move-Clears a (b + size e) (p + size e) c n es pos
        (Clears-grow a b c n e (ground arith) pos h k.0) k.1)
  | inr q ↦ rw q (move-Clears a b p c n es pos h k.1)
]

pub move-le : (b p a : ℕ) (es : List Str) → a ≤ b → a ≤ (move b p es).0
unfolding move
move-le b p a [] h = h
move-le b p a (e ∷ es) h = elim (Bool-cases (b == e.addr)) [
  | inl q ↦ rw q (move-le (b + size e) (p + size e) a es (omega arith))
  | inr q ↦ rw q (move-le b p a es h)
]

-- The front and the rest of the bytes.
pub Clears-front : (a b c n m : ℕ) → m ≤ n → Clears a b c n → Clears a b c m
Clears-front a b c n m h (inl k) = inl k
Clears-front a b c n m h (inr k) = inr (omega arith)

pub Clears-rest : (a b c n m : ℕ) → Clears a b c (m + n) → Clears a b (c + m) n
Clears-rest a b c n m (inl k) = inl (omega arith)
Clears-rest a b c n m (inr k) = inr (omega arith)

pub Clears-shorter : (a b b' c n : ℕ) → b' ≤ b → Clears a b c n → Clears a b' c n
Clears-shorter a b b' c n h (inl k) = inl (omega arith)
Clears-shorter a b b' c n h (inr k) = inr k

pub move-text : (b p : ℕ) (es : List Str) → map (λ s. s.text) (move b p es).1 ≡ map (λ s. s.text) es
unfolding move
move-text b p [] = refl
move-text b p (e ∷ es) = elim (Bool-cases (b == e.addr)) [
  | inl q ↦ rw q (ap (◌∷◌ e.text) (move-text (b + size e) (p + size e) es))
  | inr q ↦ rw q (ap (◌∷◌ e.text) (move-text b p es))
]

-- The range grows by a string that is moved to the front of the block.
pub room-grown :
    (a b p n : ℕ) (s : Str)
    → b ≡ s.addr
    → (b ≤ p) ⊎ (p + (size s + n) ≤ a)
    → Beside p (size s + n) s
    → (b + size s ≤ p) ⊎ (p + (size s + n) ≤ a)
room-grown a b p n s e (inl h) (inl k) = inl (omega arith)
room-grown a b p n s e (inl h) (inr k) = absurd (omega arith)
room-grown a b p n s e (inr h) k = inr h

pub room-rest :
    (a b p m n : ℕ) → (b + m ≤ p) ⊎ (p + (m + n) ≤ a) → (b + m ≤ p + m) ⊎ (p + m + n ≤ a)
room-rest a b p m n (inl h) = inl (omega arith)
room-rest a b p m n (inr h) = inr (omega arith)

pub room-less : (a b p m n : ℕ) → (b ≤ p) ⊎ (p + (m + n) ≤ a) → (b ≤ p) ⊎ (p + n ≤ a)
room-less a b p m n (inl h) = inl h
room-less a b p m n (inr h) = inr (omega arith)

-- The range and the block at `p`, while the block has room for the strings.
pub move-env :
    (a b p : ℕ) (es : List Str)
    → All (Clear a b) es
    → AllApart es
    → (b ≤ p) ⊎ (p + env_size es ≤ a)
    → All (Beside p (env_size es)) es
    → All (Clear a (move b p es).0) (move b p es).1
unfolding move env_size
move-env a b p [] clear apart room beside = tt
move-env a b p (e ∷ es) clear apart room beside = elim (Bool-cases (b == e.addr)) [
  | inl q ↦
      let at : b ≡ e.addr = ground arith in
      let n : ℕ = env_size es in
      let free : (b + size e ≤ p) ⊎ (p + (size e + n) ≤ a) =
        room-grown a b p n e at room beside.0 in
      let grown : All (Clear a (b + size e)) es =
        All-both es (λ s c k. Clears-grow a b s.addr (size s) e at (omega arith) c k) clear.1
          apart.0 in
      rw q (
        move-Clears a (b + size e) (p + size e) p (size e) es (omega arith)
            (Clears-front a (b + size e) p (size e + n) (size e) (omega arith) free)
            (All-weaken es
              (λ s k. Clears-front s.addr (s.addr + size s) p (size e + n) (size e) (omega arith) k)
              beside.1),
        move-env a (b + size e) (p + size e) es grown apart.2 (room-rest a b p (size e) n free)
            (All-weaken es (λ s k. Clears-rest s.addr (s.addr + size s) p n (size e) k) beside.1),
      )
  | inr q ↦ rw q (
    move-Clears a b p e.addr (size e) es (omega arith) clear.0 apart.1,
    move-env a b p es clear.1 apart.2 (room-less a b p (size e) (env_size es) room) (
        All-weaken es
          (λ s k.
            Clears-front s.addr (s.addr + size s) p (size e + env_size es) (env_size es)
              (omega arith) k)
          beside.1),
  )
]
