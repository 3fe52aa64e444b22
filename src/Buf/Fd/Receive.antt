-- ===== src/Buf/Fd/Receive.antt =====
-- spe_buf.c: what the buffer holds after a read, for every answer of the kernel.
use spe.Base.{
  ℕ, ◌+◌, ◌*◌, ◌≤◌, ◌<◌, ◌^◌, ◌≡◌, refl, sym, ap, ◌∙◌, ◌⊎◌, inl, inr, Option, some, List, ◌++◌,
  arith, length, Bool-cases,
}
use spe.Base.Words.{sub_u32}
use spe.Base.System.{Errno, ReadAnswer, got, at_end, read_failed}
use spe.Buf.{Buf, bytes}
use spe.Buf.Valid.{IsValid, IsRealloc, IsTotal, Refuses}
use spe.Buf.Move.{compact_moved_lem}
use spe.Buf.Grow.{reserve_lem, reserve_all_lem}
use spe.Buf.Append.{Holds, Holds-eq, place-Holds, copy_reserved_lem}
use spe.Buf.Total.{Owns, len-Owns, not-Refuses}
use spe.Buf.Fd.{
  ReadCode, buf_error, failed, closed, count, append_answer, copy_answer, read_fd_append,
  read_fd_copy,
}

-- The documented behaviour of read: it gives at least one byte, and no more than it was asked for.
abbrev pub IsRead : (ℕ → ReadAnswer) → Type 0
IsRead read = (n : ℕ) (xs : List ℕ) → read n ≡ got xs → (0 < length xs) × (length xs ≤ n)

-- What is left after an answer: `added` is the content with the bytes that came.
abbrev pub Answered : Buf → (List ℕ → List ℕ) → ReadAnswer → ReadCode × Buf → Type 0
Answered b added (got xs) r = (r.0 ≡ count (length xs)) × Holds r.1 (added xs)
Answered b added at_end r = (r.0 ≡ closed) × IsValid r.1 × (bytes r.1 ≡ bytes b)
Answered b added (read_failed e) r = (r.0 ≡ failed e) × IsValid r.1 × (bytes r.1 ≡ bytes b)

-- The two outcomes of a read of at least `len` bytes: `realloc` refused, or the kernel answered.
abbrev pub Received :
    (List ℕ → ℕ → Option (List ℕ))
    → Buf
    → (List ℕ → List ℕ)
    → ℕ
    → (ℕ → ReadAnswer)
    → ReadCode × Buf
    → Type 0
Received realloc b added len read r =
    ((r.0 ≡ buf_error) × IsValid r.1 × (bytes r.1 ≡ bytes b) × Refuses realloc)
    ⊎ ((n : ℕ) × (len ≤ n) × Answered b added (read n) r)

append_answer-Answered :
    (b c : Buf) (n : ℕ) (a : ReadAnswer)
    → IsValid c
    → c.off ≡ 0
    → c.len + n < c.size
    → ((xs : List ℕ) → a ≡ got xs → length xs ≤ n)
    → bytes c ≡ bytes b
    → (r : ReadCode × Buf) × (append_answer c a ≡ some r)
      × Answered b (λ xs. bytes b ++ xs) a r
      × (r.1.size ≡ c.size)
unfolding append_answer
append_answer-Answered b c n (got xs) v o h fits same =
    let (r, e, hold, size) = place-Holds c xs v (omega (arith, fits xs refl)) in
    ((count (length xs), r), rw e, (refl, Holds-eq hold (ap (λ l. l ++ xs) same)), size)
append_answer-Answered b c n at_end v o h fits same = ((closed, c), refl, (refl, v, same), refl)
append_answer-Answered b c n (read_failed e) v o h fits same =
    ((failed e, c), refl, (refl, v, same), refl)

copy_answer-Answered :
    (b c : Buf) (n : ℕ) (a : ReadAnswer)
    → IsValid c
    → n < c.size
    → ((xs : List ℕ) → a ≡ got xs → length xs ≤ n)
    → bytes c ≡ bytes b
    → (r : ReadCode × Buf) × (copy_answer c a ≡ some r) × Answered b (λ xs. xs) a r
unfolding copy_answer
copy_answer-Answered b c n (got xs) v h fits same =
    let (r, e, hold, _) = copy_reserved_lem c xs v (omega (arith, fits xs refl)) in
    ((count (length xs), r), rw e, (refl, hold))
copy_answer-Answered b c n at_end v h fits same = ((closed, c), refl, (refl, v, same))
copy_answer-Answered b c n (read_failed e) v h fits same = ((failed e, c), refl, (refl, v, same))

module _ (realloc : List ℕ → ℕ → Option (List ℕ)) (law : IsRealloc realloc) (read : ℕ → ReadAnswer)
    (reads : IsRead read) where
  pub read_fd_append_lem :
      (b : Buf) (len : ℕ)
      → IsValid b
      → 25 * (b.size + len + 1) < 2 ^ 32
      → (r : ReadCode × Buf) × (read_fd_append realloc read len b ≡ some r)
        × Received realloc b (λ xs. bytes b ++ xs) len read r
        × ((r.1.size ≡ b.size) ⊎ (16 * r.1.size ≤ 25 * (b.len + len + len + 1)))
        × ((r.0 ≡ buf_error) ⊎ (0 < r.1.size))
  unfolding read_fd_append
  read_fd_append_lem b len v h =
      let (g, e, grown) = reserve_lem realloc law b len v h in
      elim (Bool-cases g.0) [
        | inl t ↦
            let (c, q, m, o) = compact_moved_lem g.1 grown.valid in
            let room = grown.larger t in
            let n : ℕ = sub_u32 (sub_u32 c.size c.len) 1 in
            let lens : c.len ≡ b.len = m.same_len ∙ grown.same_len in
            let (r, p, ans, size) =
              append_answer-Answered b c n (read n) m.valid o
                (omega (arith, m.valid.small, m.same_size)) (λ xs w. (reads n xs w).1)
                (m.same_bytes ∙ grown.same_bytes) in
            (
              r,
              rw (e, t, q) p,
              inr (n, omega (arith, m.valid.small, m.same_size), ans),
              omega (arith, size, m.same_size, grown.capped),
              inr (omega (arith, size, m.same_size)),
            )
        | inr t ↦ (
          (buf_error, g.1),
          rw (e, t),
          inl (refl, grown.valid, grown.same_bytes, grown.refused t),
          grown.capped,
          inl refl,
        )
      ]

  -- On a valid buffer, while the size stays below 2^32 / 25, `spe_buf_read_fd_append` asks for at least `len` bytes, adds what comes to the content, and
  -- on any other answer, or when `realloc` refuses, keeps the content; it accesses nothing
  -- outside the block.
  pub read_fd_append-Received :
      (b : Buf) (len : ℕ)
      → IsValid b
      → 25 * (b.size + len + 1) < 2 ^ 32
      → (r : ReadCode × Buf) × (read_fd_append realloc read len b ≡ some r)
        × Received realloc b (λ xs. bytes b ++ xs) len read r
  read_fd_append-Received b len v h =
      let (r, e, received, _, _) = read_fd_append_lem b len v h in (r, e, received)

  -- On a valid buffer, while `len` stays below 2^32 / 25, `spe_buf_read_fd_copy` asks for at least
  -- `len` bytes, replaces the content by what comes, and on any other answer, or when `realloc`
  -- refuses, keeps the content; it accesses nothing outside the block.
  pub read_fd_copy-Received :
      (b : Buf) (len : ℕ)
      → IsValid b
      → 25 * (len + 1) < 2 ^ 32
      → (r : ReadCode × Buf) × (read_fd_copy realloc read len b ≡ some r)
        × Received realloc b (λ xs. xs) len read r
  unfolding read_fd_copy
  read_fd_copy-Received b len v h =
      let (g, e, grown) = reserve_all_lem realloc law b len v h in
      elim (Bool-cases g.0) [
        | inl t ↦
            let room = grown.larger t in
            let n : ℕ = sub_u32 g.1.size 1 in
            let (r, p, ans) =
              copy_answer-Answered b g.1 n (read n) grown.valid (omega (arith, grown.valid.small))
                (λ xs w. (reads n xs w).1) grown.same_bytes in
            (r, rw (e, t) p, inr (n, omega (arith, grown.valid.small), ans))
        | inr t ↦ (
          (buf_error, g.1),
          rw (e, t),
          inl (refl, grown.valid, grown.same_bytes, grown.refused t),
        )
      ]

-- The same for a client that knows the content, when no `realloc` is refused.
abbrev pub AnswerOwns : List ℕ → ReadAnswer → ReadCode × Buf → Type 0
AnswerOwns xs (got ys) r = (r.0 ≡ count (length ys)) × Owns r.1 (xs ++ ys) × (0 < r.1.size)
AnswerOwns xs at_end r = (r.0 ≡ closed) × Owns r.1 xs × (0 < r.1.size)
AnswerOwns xs (read_failed e) r = (r.0 ≡ failed e) × Owns r.1 xs × (0 < r.1.size)

closed-ne : ¬ (closed ≡ buf_error)
closed-ne e = cc

failed-ne : (e : Errno) → ¬ (failed e ≡ buf_error)
failed-ne e p = cc

Answered-Owns :
    {b : Buf} {xs : List ℕ} (a : ReadAnswer) (r : ReadCode × Buf)
    → Owns b xs
    → Answered b (λ ys. bytes b ++ ys) a r
    → r.1.size ≤ 2 ^ 27
    → (r.0 ≡ buf_error) ⊎ (0 < r.1.size)
    → AnswerOwns xs a r
Answered-Owns {xs} (got ys) r o h m z =
    let owns : Owns r.1 (xs ++ ys) = record {
      valid = h.1.valid;
      content = h.1.content ∙ ap (λ l. l ++ ys) o.content;
      modest = m;
    } in
    (h.0, owns, h.1.has_block)
Answered-Owns at_end r o h m z = (
  h.0,
  record { valid = h.1; content = h.2 ∙ o.content; modest = m },
  elim z [ inl e ↦ absurd (closed-ne (sym h.0 ∙ e)) | inr p ↦ p ],
)
Answered-Owns (read_failed e) r o h m z = (
  h.0,
  record { valid = h.1; content = h.2 ∙ o.content; modest = m },
  elim z [ inl e ↦ absurd (failed-ne _ (sym h.0 ∙ e)) | inr p ↦ p ],
)

pub read_fd_append-Owns :
    (realloc : List ℕ → ℕ → Option (List ℕ)) (law : IsRealloc realloc) (total : IsTotal realloc)
    (read : ℕ → ReadAnswer) (reads : IsRead read) {b : Buf} {xs : List ℕ} (len : ℕ)
    → Owns b xs
    → length xs ≤ 2 ^ 25
    → len ≤ 2 ^ 16
    → (n : ℕ) × (len ≤ n)
      × (r : ReadCode × Buf) × (read_fd_append realloc read len b ≡ some r)
      × AnswerOwns xs (read n) r
read_fd_append-Owns realloc law total read reads {b} {xs} len o hx hl =
    let (r, e, received, cap, block) =
      read_fd_append_lem realloc law read reads b len o.valid (omega (arith, o.modest)) in
    let small : r.1.size ≤ 2 ^ 27 = omega (arith, o.modest, cap, len-Owns o) in
    elim received [
      | inl h ↦ absurd (not-Refuses realloc total h.3)
      | inr (n, asked, ans) ↦ (n, asked, r, e, Answered-Owns (read n) r o ans small block)
    ]
