-- ===== src/Conn/Turn.antt =====
-- src/spe_conn.c, `read_normal`: what is expected of the handler that goes on with a read which waits, by the
-- answers of the kernel, and its tests behind the reads.
use spe.Base.{
  ℕ, ◌+◌, ◌≤◌, ◌^◌, ◌≡◌, refl, Bool, true, false, Option, none, some, List, [], ◌∷◌, ◌++◌, length,
  take, drop, ◌>>=◌, ◌||◌,
}
use spe.Base.System.{
  eintr, eagain, epipe, einprogress, other_errno, ReadAnswer, got, at_end, read_failed,
}
use spe.Buf.{Buf}
use spe.Buf.Valid.{IsRealloc, IsTotal}
use spe.Buf.Total.{Owns}
use spe.Conn.{Conn, Loop, Reading, read_none, read_any, read_until, read_bytes}
use spe.Conn.Read.{anything, until, bytes_of_number, buf_size, deliver_reading, check_end, end_read}
use spe.Conn.Front.{front, Holding, Delivered, deliver-Delivered}

-- What the kind of read that waits is satisfied with.
pub front_of : Reading → List ℕ → ℕ → List ℕ → Option ℕ
front_of read_none delim rbytes ys = none
front_of read_any delim rbytes ys = front anything ys
front_of read_until delim rbytes ys = front (until delim) ys
front_of read_bytes delim rbytes ys = front (bytes_of_number rbytes) ys

-- No more bytes than 2^25 with the answer.
abbrev pub Fits : List ℕ → List ℕ → (ℕ → ReadAnswer) → Type 0
Fits xs ys answer =
    (n : ℕ) (zs : List ℕ) → answer n ≡ got zs → length xs + (length ys + length zs) ≤ 2 ^ 25

module _ (realloc : List ℕ → ℕ → Option (List ℕ)) {W : Type 0} (loop : Loop W) where
  -- The bytes `ys` are read: the front of them goes to the user, and the read is over; or there is
  -- none, and the read is over if the connection is, and waits on if not.
  abbrev pub Turn :
      Bool → Conn → W → List ℕ → List ℕ → Option ℕ → Option (Option (Conn × W)) → Type 0
  Turn over c w xs ys (some n) r =
      (n ≤ length ys)
      × (b : Buf × Buf) × (r
          ≡ some (some (end_read realloc loop (record c { buffer = b.0; read_buffer = b.1 }) w)))
      × Owns b.0 (xs ++ take n ys)
      × Owns b.1 (drop n ys)
  Turn true c w xs ys none r =
      (b : Buf) × (r ≡ some (some (end_read realloc loop (record c { read_buffer = b }) w)))
      × Owns b ys
  Turn false c w xs ys none r =
      (b : Buf) × (r ≡ some (some (record c { read_buffer = b }, w))) × Owns b ys

  -- What the handler does, by the answer of the kernel; `again` is for an answer that was interrupted.
  abbrev pub Heard :
      Conn → W → List ℕ → List ℕ → Type 0 → ReadAnswer → Option (Option (Conn × W)) → Type 0
  Heard c w xs ys again (got zs) r =
      Turn false c w xs (ys ++ zs) (front_of c.reading c.delim c.rbytes (ys ++ zs)) r
  Heard c w xs ys again at_end r =
      Turn true (record c { is_closed = true }) w xs ys (front_of c.reading c.delim c.rbytes ys) r
  Heard c w xs ys again (read_failed eintr) r = again
  Heard c w xs ys again (read_failed eagain) r =
      Turn false c w xs ys (front_of c.reading c.delim c.rbytes ys) r
  Heard c w xs ys again (read_failed epipe) r =
      Turn true (record c { is_error = true }) w xs ys (front_of c.reading c.delim c.rbytes ys) r
  Heard c w xs ys again (read_failed einprogress) r =
      Turn true (record c { is_error = true }) w xs ys (front_of c.reading c.delim c.rbytes ys) r
  Heard c w xs ys again (read_failed other_errno) r =
      Turn true (record c { is_error = true }) w xs ys (front_of c.reading c.delim c.rbytes ys) r

  -- The answers in their order, each to a call for at least 1024 bytes.
  abbrev pub HeardAll :
      Conn → W → List ℕ → List ℕ → List (ℕ → ReadAnswer) → Option (Option (Conn × W)) → Type 0
  HeardAll c w xs ys [] r = r ≡ some none
  HeardAll c w xs ys (answer ∷ answers) r =
      (n : ℕ) × (buf_size ≤ n) × Heard c w xs ys (HeardAll c w xs ys answers r) (answer n) r

  -- Behind the time limit, or in time.
  abbrev pub Answered :
      Bool
      → Conn
      → W
      → List ℕ
      → List ℕ
      → List (ℕ → ReadAnswer)
      → Option (Option (Conn × W))
      → Type 0
  Answered true c w xs ys answers r =
      r ≡ some (some (end_read realloc loop (record c { read_timeout = true }) w))
  Answered false c w xs ys answers r = HeardAll c w xs ys answers r

  module _ (law : IsRealloc realloc) (total : IsTotal realloc) where
    deliver_reading-Delivered :
        (k : Reading) (c : Conn) (xs ys : List ℕ)
        → Holding c xs ys
        → length xs + length ys ≤ 2 ^ 25
        → (r : Option Conn) × (deliver_reading realloc loop k c ≡ some r)
          × Delivered c xs ys (front_of k c.delim c.rbytes ys) r
    unfolding deliver_reading front_of
    deliver_reading-Delivered read_none c xs ys h fits = (none, refl, refl)
    deliver_reading-Delivered read_any c xs ys h fits =
        deliver-Delivered realloc law total anything c xs ys h fits
    deliver_reading-Delivered read_until c xs ys h fits =
        deliver-Delivered realloc law total (until c.delim) c xs ys h fits
    deliver_reading-Delivered read_bytes c xs ys h fits =
        deliver-Delivered realloc law total (bytes_of_number c.rbytes) c xs ys h fits

    check_end-Turn :
        (over : Bool) (c : Conn) (b : Buf) (w : W) (xs ys : List ℕ) (m : Option ℕ) (r : Option Conn)
        → (c.is_closed || c.is_error) ≡ over
        → Owns b ys
        → Delivered (record c { read_buffer = b }) xs ys m r
        → Turn over c w xs ys m
            (some (some (check_end realloc loop (record c { read_buffer = b }) w r)))
    unfolding check_end
    check_end-Turn over c b w xs ys (some n) r q o (h, p, e, user, own) =
        (h, p, rw e refl, user, own)
    check_end-Turn true c b w xs ys none r q o d = (b, rw (d, q) refl, o)
    check_end-Turn false c b w xs ys none r q o d = (b, rw (d, q) refl, o)

    pub read_normal-Turn :
        (over : Bool) (c : Conn) (b : Buf) (w : W) (xs ys : List ℕ)
        → (c.is_closed || c.is_error) ≡ over
        → Holding (record c { read_buffer = b }) xs ys
        → length xs + length ys ≤ 2 ^ 25
        → Turn over c w xs ys (front_of c.reading c.delim c.rbytes ys) (
            deliver_reading realloc loop c.reading (record c { read_buffer = b }) >>= λ d.
            some (some (check_end realloc loop (record c { read_buffer = b }) w d)))
    read_normal-Turn over c b w xs ys q h fits =
        let (r, e, d) =
          deliver_reading-Delivered c.reading (record c { read_buffer = b }) xs ys h fits in
        rw (e, ◌>>=◌)
          (check_end-Turn over c b w xs ys (front_of c.reading c.delim c.rbytes ys) r q h.own d)
