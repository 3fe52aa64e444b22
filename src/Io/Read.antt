-- ===== src/Io/Read.antt =====
-- spe_io.c, `read_common`: the loop against an abstract reader, which has read some bytes, looks
-- whether the front of them is what is wanted, and asks the kernel for more if not.
use mathlib.Core.Path.{subst}
use spe.Base.{
  ℕ, ◌+◌, ◌*◌, ◌≤◌, ◌<◌, ◌^◌, ◌≡◌, refl, ap, ◌∙◌, inl, inr, true, Option, none, some, List, [], ◌∷◌,
  ◌++◌, arith, length, take, drop, ltb, leb, leb→le, Bool-cases, Option-cases, ◌>>=◌, take_all,
  drop_all, length-append, All,
}
use spe.Base.Words.{add_u32_small}
use spe.Base.System.{
  Errno, eintr, eagain, epipe, einprogress, other_errno, ReadAnswer, got, at_end, read_failed,
}
use spe.Buf.{Buf}
use spe.Buf.Valid.{IsRealloc, IsTotal}
use spe.Buf.Total.{Owns, len-Owns}
use spe.Buf.Fd.{ReadCode, failed, closed, count}
use spe.Buf.Fd.Receive.{IsRead, AnswerOwns, read_fd_append-Owns}
use spe.Buf.Text.Find.{find_in, search-find_in, find_in-inside}
use spe.Buf.Transfer.{transfer-Owns, transfer_all-Owns}
use spe.Io.{
  Io, ReadType, read_none, read_any, read_bytes, read_until, buf_len, Outcome, waiting, returned,
  hand_over, satisfy, finish, on_read, read_common,
}
use spe.Io.Reader.{
  front, wanted, waits, gives, satisfied, blocked, filled, interrupted, broken, ended, hits_end,
  breaks, Shows, Asks, Ready, Ready-read, flags_down, AtMost, Meets,
}

-- What the head of the loop gives.
abbrev Satisfied : Io → List ℕ → List ℕ → Option ℕ → Option (ℕ × Io × Buf) → Type 0
Satisfied io xs ys none r = r ≡ none
Satisfied io xs ys (some n) r =
    (b : Buf × Buf) × (r ≡ some (n, record io { rbuf = b.1; rtype = read_none }, b.0))
    × Owns b.0 (xs ++ take n ys)
    × Owns b.1 (drop n ys)

has_block : {b : Buf} {ys : List ℕ} → Owns b ys → 0 < length ys → 0 < b.size
has_block o h = omega (arith, len-Owns o, o.valid.room)

module _ (realloc : List ℕ → ℕ → Option (List ℕ)) (law : IsRealloc realloc)
    (total : IsTotal realloc) where
  hand_over-Satisfied :
      (io : Io) (buf : Buf) (xs ys : List ℕ) (n : ℕ)
      → Owns buf xs
      → Owns io.rbuf ys
      → 0 < length ys
      → n ≤ length ys
      → length xs + length ys ≤ 2 ^ 25
      → (r : Option (ℕ × Io × Buf)) × (hand_over realloc io buf n ≡ some r)
        × Satisfied io xs ys (some n) r
  unfolding hand_over
  hand_over-Satisfied io buf xs ys n user own there hn fits =
      let (b, e, given, kept, _, _) =
        transfer-Owns realloc law total n user own (has_block own there) hn fits in
      (
        some (n, record io { rbuf = b.1; rtype = read_none }, b.0),
        rw (e, ◌>>=◌) refl,
        (b, refl, given, kept),
      )

  satisfy-Satisfied :
      (t : ReadType) (io : Io) (buf : Buf) (xs ys : List ℕ)
      → Owns buf xs
      → Owns io.rbuf ys
      → Asks t io.rbytes
      → length xs + length ys ≤ 2 ^ 25
      → (r : Option (ℕ × Io × Buf)) × (satisfy realloc t io buf ≡ some r)
        × Satisfied io xs ys (front t io.rbytes io.delim ys) r
  unfolding satisfy front
  satisfy-Satisfied read_none io buf xs ys user own asks fits = (none, refl, refl)
  satisfy-Satisfied read_any io buf xs ys user own asks fits =
      elim (Bool-cases (ltb 0 (length ys))) [
        | inl q ↦
            let (b, e, given, kept, _, _) = transfer_all-Owns realloc law total user own fits in
            let whole = take_all (length ys) ys (omega arith) in
            let gone = drop_all (length ys) ys (omega arith) in
            let over : ℕ → Option (ℕ × Io × Buf) =
              λ k. some (k, record io { rbuf = b.1; rtype = read_none }, b.0) in
            (
              over io.rbuf.len,
              rw (ap (ltb 0) (len-Owns own) ∙ q, e, ◌>>=◌) refl,
              rw q (b, ap over (len-Owns own), rw whole given, rw gone kept),
            )
        | inr q ↦ (none, rw (ap (ltb 0) (len-Owns own) ∙ q) refl, rw q refl)
      ]
  satisfy-Satisfied read_bytes io buf xs ys user own asks fits =
      elim (Bool-cases (leb io.rbytes (length ys))) [
        | inl q ↦
            let inside : io.rbytes ≤ length ys = leb→le _ _ q in
            let (r, e, s) =
              hand_over-Satisfied io buf xs ys io.rbytes user own (omega arith) inside fits in
            (r, rw (ap (leb io.rbytes) (len-Owns own) ∙ q) e, rw q s)
        | inr q ↦ (none, rw (ap (leb io.rbytes) (len-Owns own) ∙ q) refl, rw q refl)
      ]
  satisfy-Satisfied read_until io buf xs ys user own asks fits =
      let found = search-find_in io.delim own in
      elim (Option-cases (find_in ys io.delim)) [
        | inl z ↦ (none, rw (found, ◌>>=◌, z) refl, rw z refl)
        | inr (pos, z) ↦
            let (inside, there) = find_in-inside ys io.delim pos z in
            let (r, e, s) =
              hand_over-Satisfied io buf xs ys (pos + length io.delim) user own there inside fits in
            (r, rw (found, ◌>>=◌, z, add_u32_small pos (length io.delim) (omega arith)) e, rw z s)
      ]

  abbrev Later : List (ℕ → ReadAnswer) → Io → Buf → List ℕ → List ℕ → Type 0
  Later answers io buf xs ys =
      (b : Buf)
      → Owns b ys
      → Meets answers io xs ys (read_common realloc answers (record io { rbuf = b }) buf)

  finish-Shows :
      (code : ReadCode) (io : Io) (buf b : Buf) (xs ys : List ℕ) (answers : List (ℕ → ReadAnswer))
      → Owns buf xs
      → Owns b ys
      → length xs + length ys ≤ 2 ^ 25
      → (o : Outcome) × (finish realloc code
            (record io { rbuf = b; is_closed = hits_end code; is_error = breaks code })
            buf
            answers
          ≡ some o)
        × Shows io xs (gives code ys [] answers) o
  unfolding finish
  finish-Shows code io buf b xs ys answers user own fits =
      let (p, e, given, kept, _, _) = transfer_all-Owns realloc law total user own fits in
      (
        returned code
            (record io {
              rbuf = p.1;
              rtype = read_none;
              is_closed = hits_end code;
              is_error = breaks code;
            })
            p.0 answers,
        rw (e, ◌>>=◌) refl,
        (p, refl, given, kept),
      )

  broken_off :
      (a : ℕ → ReadAnswer) (answers : List (ℕ → ReadAnswer)) (io : Io) (buf b : Buf)
      (xs ys : List ℕ) (e : Errno)
      → Ready io buf xs ys
      → Owns b ys
      → length xs + length ys ≤ 2 ^ 25
      → (o : Outcome) × (finish realloc
            (failed e)
            (record io { rbuf = b; is_error = true })
            buf
            answers
          ≡ some o)
        × Shows io xs (gives (failed e) ys [] answers) o
  broken_off a answers io buf b xs ys e h own fits =
      let (o, run, shows) = finish-Shows (failed e) io buf b xs ys answers h.user own fits in
      let same =
        ap
          (λ f.
            finish realloc (failed e) (record io { rbuf = b; is_closed = f; is_error = true }) buf
              answers)
          h.still_open in
      (o, same ∙ run, shows)

  -- A round of the loop behind its tests, by the answer `w`.
  round :
      (a : ℕ → ReadAnswer) (answers : List (ℕ → ReadAnswer)) (io : Io) (buf : Buf) (xs ys : List ℕ)
      (n : ℕ) (w : ReadAnswer) (r : ReadCode × Buf)
      → Ready io buf xs ys
      → wanted io ys ≡ none
      → buf_len ≤ n
      → a n ≡ w
      → AnswerOwns ys w r
      → length xs + length ys ≤ 2 ^ 25
      → ((zs : List ℕ) → w ≡ got zs → Later answers io buf xs (ys ++ zs))
      → Later answers io buf xs ys
      → Meets
          (a ∷ answers)
          io
          xs
          ys
          (on_read realloc (λ io'. read_common realloc answers io' buf) io buf answers r)
  unfolding on_read
  round a answers io buf xs ys n (got zs) (code, b) h lacks asked e (c, own, _) fits more again =
      let (res, o, run, reads, shows) = more zs refl b own in
      (res, o, rw c run, filled lacks asked e reads, shows)
  round a answers io buf xs ys n at_end (code, b) h lacks asked e (c, own, _) fits more again =
      let (o, run, shows) = finish-Shows closed io buf b xs ys answers h.user own fits in
      let same =
        ap
          (λ f.
            finish realloc closed (record io { rbuf = b; is_closed = true; is_error = f }) buf
              answers)
          h.no_error in
      (gives closed ys [] answers, o, rw c (same ∙ run), ended lacks asked e, shows)
  round a answers io buf xs ys n (read_failed eintr) (code, b) h lacks asked e (c, own, _) fits more
        again =
      let (res, o, run, reads, shows) = again b own in
      (res, o, rw c run, interrupted lacks asked e reads, shows)
  round a answers io buf xs ys n (read_failed eagain) (code, b) h lacks asked e (c, own, _) fits
        more again =
      let (o, run, shows) = broken_off a answers io buf b xs ys eagain h own fits in
      (gives (failed eagain) ys [] answers, o, rw c run, broken lacks asked e (λ q. cc), shows)
  round a answers io buf xs ys n (read_failed epipe) (code, b) h lacks asked e (c, own, _) fits more
        again =
      let (o, run, shows) = broken_off a answers io buf b xs ys epipe h own fits in
      (gives (failed epipe) ys [] answers, o, rw c run, broken lacks asked e (λ q. cc), shows)
  round a answers io buf xs ys n (read_failed einprogress) (code, b) h lacks asked e (c, own, _)
        fits more again =
      let (o, run, shows) = broken_off a answers io buf b xs ys einprogress h own fits in
      (gives (failed einprogress) ys [] answers, o, rw c run, broken lacks asked e (λ q. cc), shows)
  round a answers io buf xs ys n (read_failed other_errno) (code, b) h lacks asked e (c, own, _)
        fits more again =
      let (o, run, shows) = broken_off a answers io buf b xs ys other_errno h own fits in
      (gives (failed other_errno) ys [] answers, o, rw c run, broken lacks asked e (λ q. cc), shows)

  -- The loop follows the abstract reader.
  pub read_common-Reads :
      (m : ℕ) (answers : List (ℕ → ReadAnswer)) (io : Io) (buf : Buf) (xs ys : List ℕ)
      → All IsRead answers
      → All (AtMost m) answers
      → Ready io buf xs ys
      → length xs + length ys + m * length answers ≤ 2 ^ 25
      → Meets answers io xs ys (read_common realloc answers io buf)
  unfolding read_common
  read_common-Reads m [] io buf xs ys reads few h fits =
      let (s, e, sat) = satisfy-Satisfied io.rtype io buf xs ys h.user h.own h.asks (omega arith) in
      elim (Option-cases (wanted io ys)) [
        | inl z ↦
            let q : s ≡ none = subst (λ k. Satisfied io xs ys k s) z sat in
            (waits, waiting, rw (e, q, ◌>>=◌) refl, blocked z, refl)
        | inr (n, z) ↦
            let (b, q, given, kept) : Satisfied io xs ys (some n) s =
              subst (λ k. Satisfied io xs ys k s) z sat in
            (
              gives (count n) (take n ys) (drop n ys) [],
              returned (count n) (record io { rbuf = b.1; rtype = read_none }) b.0 [],
              rw (e, q, ◌>>=◌) refl,
              satisfied z,
              (b, flags_down h n b [], given, kept),
            )
      ]
  read_common-Reads m (a ∷ answers) io buf xs ys reads few h fits =
      let room : length xs + length ys + m + m * length answers ≤ 2 ^ 25 = grind arith in
      let (s, e, sat) = satisfy-Satisfied io.rtype io buf xs ys h.user h.own h.asks (omega arith) in
      elim (Option-cases (wanted io ys)) [
        | inl z ↦
            let q : s ≡ none = subst (λ k. Satisfied io xs ys k s) z sat in
            let (n, asked, r, run, ans) =
              read_fd_append-Owns realloc law total a reads.0 buf_len h.own (omega arith)
                (omega arith) in
            let next : Meets (a ∷ answers) io xs ys
                (on_read realloc (λ io'. read_common realloc answers io' buf) io buf answers r) =
              round a answers io buf xs ys n (a n) r h z asked refl ans (omega arith)
                (λ zs w b own.
                  read_common-Reads m answers (record io { rbuf = b }) buf xs (ys ++ zs) reads.1
                    few.1 (Ready-read h b own) (omega (arith, length-append ys zs, few.0 n zs w)))
                (λ b own.
                  read_common-Reads m answers (record io { rbuf = b }) buf xs ys reads.1 few.1
                    (Ready-read h b own) (omega arith)) in
            rw (e, q, ◌>>=◌, run) next
        | inr (n, z) ↦
            let (b, q, given, kept) : Satisfied io xs ys (some n) s =
              subst (λ k. Satisfied io xs ys k s) z sat in
            (
              gives (count n) (take n ys) (drop n ys) (a ∷ answers),
              returned (count n) (record io { rbuf = b.1; rtype = read_none }) b.0 (a ∷ answers),
              rw (e, q, ◌>>=◌) refl,
              satisfied z,
              (b, flags_down h n b (a ∷ answers), given, kept),
            )
      ]
