-- ===== src/Io/Write.antt =====
-- spe_io.c, `spe_io_write`: what reaches the file.
use mathlib.Core.List.{append_assoc, append-nil}
use spe.Base.{
  ℕ, ◌+◌, ◌≤◌, ◌<◌, ◌≡◌, refl, sym, ap, ◌∙◌, ◌⊎◌, inl, inr, Bool, true, false, Option, none, some,
  List, [], ◌∷◌, ◌++◌, arith, ltb, Bool-cases, length, take, drop, length-drop, All, ltb→lt,
  take_all, le→ltb-false, read_at_in, Option-cases, ◌>>=◌, ltb-false→le, take-append,
}
use mathlib.Core.Path.{subst}
use mathlib.Core.Option.{none-ne-some}
use spe.Base.System.{eintr, WriteAnswer, wrote, write_failed}
use spe.Buf.{Buf, bytes}
use spe.Buf.Valid.{IsValid}
use spe.Buf.Move.{length-bytes}
use spe.Io.{Io, on_write, write_loop, write}

-- The documented behaviour of write: it takes no more than it is offered.
abbrev pub IsWrite : (List ℕ → WriteAnswer) → Type 0
IsWrite write = (xs : List ℕ) (k : ℕ) → write xs ≡ wrote k → k ≤ length xs

-- What the loop has done when it returns: the file grew by the first `total` bytes, which are all
-- of them unless the kernel reported an error.
pub record Written (xs file : List ℕ) (r : ℕ × Bool × List ℕ) : Type 0 where
  pub within : r.0 ≤ length xs
  pub prefix : r.2 ≡ file ++ take r.0 xs
  pub complete : (r.1 ≡ true) ⊎ (r.0 ≡ length xs)

stopped :
    (xs : List ℕ) (total : ℕ) (file now : List ℕ) (err : Bool) (r : ℕ × Bool × List ℕ)
    → total ≤ length xs
    → now ≡ file ++ take total xs
    → (err ≡ true) ⊎ (total ≡ length xs)
    → some (total, err, now) ≡ some r
    → Written xs file r
stopped xs total file now err r h e c q =
    let same : (total, err, now) ≡ r = cc in
    subst (Written xs file) same (record { within = h; prefix = e; complete = c })

grown :
    (xs : List ℕ) (total k : ℕ) (file now : List ℕ)
    → now ≡ file ++ take total xs
    → now ++ take k (drop total xs) ≡ file ++ take (total + k) xs
grown xs total k file now e =
    ap (λ l. l ++ take k (drop total xs)) e
    ∙ append_assoc file (take total xs) (take k (drop total xs))
    ∙ ap (λ l. file ++ l) (take-append total k (total + k) xs refl)

-- Whatever follows a write, if the loop goes on as stated.
on_write-Written :
    (xs : List ℕ) (total : ℕ) (file now : List ℕ) (r : ℕ × Bool × List ℕ) (a : WriteAnswer)
    (again : ℕ → List ℕ → Option (ℕ × Bool × List ℕ))
    → total ≤ length xs
    → now ≡ file ++ take total xs
    → ((k : ℕ) → a ≡ wrote k → k ≤ length (drop total xs))
    → ((t : ℕ) (now' : List ℕ)
        → t ≤ length xs
        → now' ≡ file ++ take t xs
        → again t now' ≡ some r
        → Written xs file r)
    → on_write again total now (drop total xs) a ≡ some r
    → Written xs file r
unfolding on_write
on_write-Written xs total file now r (wrote k) again h e ok go q =
    go (total + k) (now ++ take k (drop total xs)) (omega (arith, ok k refl, length-drop total xs))
      (grown xs total k file now e) q
on_write-Written xs total file now r (write_failed eintr) again h e ok go q = go total now h e q
on_write-Written xs total file now r (write_failed c) again h e ok go q =
    stopped xs total file now true r h e (inl refl) q

write_loop-Written :
    (answers : List (List ℕ → WriteAnswer)) (xs : List ℕ) (total : ℕ) (file now : List ℕ)
    (r : ℕ × Bool × List ℕ)
    → All IsWrite answers
    → total ≤ length xs
    → now ≡ file ++ take total xs
    → write_loop answers xs total now ≡ some r
    → Written xs file r
unfolding write_loop
write_loop-Written [] xs total file now r ok h e q = elim (Bool-cases (ltb total (length xs))) [
  | inl t ↦ absurd (none-ne-some _ (rw t at q))
  | inr t ↦
      stopped xs total file now false r h e (inr (omega (arith, ltb-false→le _ _ t))) (rw t at q)
]
write_loop-Written (a ∷ answers) xs total file now r ok h e q =
    elim (Bool-cases (ltb total (length xs))) [
      | inl t ↦
          on_write-Written xs total file now r (a (drop total xs)) (write_loop answers xs) h e
            (λ k w. ok.0 (drop total xs) k w)
            (λ t' now' h' e' q'. write_loop-Written answers xs t' file now' r ok.1 h' e' q')
            (rw t at q)
      | inr t ↦
          stopped xs total file now false r h e (inr (omega (arith, ltb-false→le _ _ t)))
            (rw t at q)
    ]

-- A kernel that reports no error and takes something of whatever it is offered.
abbrev pub IsServing : (List ℕ → WriteAnswer) → Type 0
IsServing write = (xs : List ℕ) → (k : ℕ) × (write xs ≡ wrote k) × ((0 < k) ⊎ (length xs ≡ 0))

write_loop-serving :
    (answers : List (List ℕ → WriteAnswer)) (xs : List ℕ) (total : ℕ) (now : List ℕ)
    → All IsServing answers
    → length xs ≤ total + length answers
    → (r : ℕ × Bool × List ℕ) × (write_loop answers xs total now ≡ some r) × (r.1 ≡ false)
unfolding write_loop on_write
write_loop-serving [] xs total now ok h =
    ((total, false, now), rw (le→ltb-false total (length xs) (omega arith)), refl)
write_loop-serving (a ∷ answers) xs total now ok h = elim (Bool-cases (ltb total (length xs))) [
  | inl t ↦
      let (k, e, progress) = ok.0 (drop total xs) in
      let (r, q, fine) =
        write_loop-serving answers xs (total + k) (now ++ take k (drop total xs)) ok.1
          (omega (arith, length-drop total xs, ltb→lt _ _ t)) in
      (r, rw (t, e) q, fine)
  | inr t ↦ ((total, false, now), rw t, refl)
]

-- `spe_io_write` of a valid buffer, on an open file with no error so far, reads inside the buffer. When it returns, the file has grown by a
-- prefix of the content, of the length that is returned, and by all of it unless `_error` is set.
pub write-Written :
    (answers : List (List ℕ → WriteAnswer)) (io : Io) (buf : Buf) (file : List ℕ)
    → All IsWrite answers
    → IsValid buf
    → io.is_closed ≡ false
    → io.is_error ≡ false
    → (write answers io buf file ≡ some none)
      ⊎ ((r : ℕ × Bool × List ℕ) × (write answers io buf file
            ≡ some (some (some r.0, record io { is_error = r.1 }, r.2)))
          × Written (bytes buf) file r)
unfolding write
write-Written answers io buf file ok v c e =
    let read = read_at_in buf.mem buf.off buf.len (omega (arith, v.block, v.room)) in
    elim (Option-cases (write_loop answers (bytes buf) 0 file)) [
      | inl n ↦ inl (rw (c, e, read, ◌>>=◌, n))
      | inr (r, q) ↦ inr (
        r,
        rw (c, e, read, ◌>>=◌, q) (ground (arith, c, e)),
        write_loop-Written answers (bytes buf) 0 file file r ok (omega arith)
            (sym (append-nil file)) q,
      )
    ]

-- Of a valid buffer, on an open file with no error so far: if the kernel takes something at each of at least as many writes as there are bytes,
-- `spe_io_write` returns, and the file has grown by the whole content.
pub write_completes :
    (answers : List (List ℕ → WriteAnswer)) (io : Io) (buf : Buf) (file : List ℕ)
    → All IsWrite answers
    → All IsServing answers
    → IsValid buf
    → io.is_closed ≡ false
    → io.is_error ≡ false
    → buf.len ≤ length answers
    → write answers io buf file ≡ some (some (some buf.len, io, file ++ bytes buf))
unfolding write
write_completes answers io buf file ok serving v c e h =
    let inside : buf.off + buf.len ≤ length buf.mem = omega (arith, v.block, v.room) in
    let len = length-bytes buf inside in
    let (r, q, fine) = write_loop-serving answers (bytes buf) 0 file serving (omega arith) in
    let w =
      write_loop-Written answers (bytes buf) 0 file file r ok (omega arith) (sym (append-nil file))
        q in
    let count : r.0 ≡ buf.len = elim w.complete [ inl x ↦ cc (x, fine) | inr x ↦ x ∙ len ] in
    let whole : r.2 ≡ file ++ bytes buf =
      w.prefix ∙ ap (λ l. file ++ l) (take_all r.0 (bytes buf) (omega arith)) in
    rw (c, e, read_at_in buf.mem buf.off buf.len inside, ◌>>=◌, q, count, whole, fine)
      (ground (arith, e))
