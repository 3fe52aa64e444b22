-- ===== src/Io.antt =====
-- src/spe_io.c and src/spe_io.h: blocking buffered reads and writes of a file. The descriptor is
-- only handed to the kernel, so the state leaves it out. What the kernel answers is a list: each
-- read or write takes the next entry, and at the end of the list the call still waits.
pub mod Write
pub mod Reader
pub mod Read
pub mod Calls
pub mod Complete
use spe.Base.{
  ℕ, ◌+◌, ◌-◌, Bool, true, false, Option, none, some, List, [], ◌∷◌, ◌++◌, ltb, leb, if◌then◌else◌,
  ◌>>=◌, ◌||◌, length, take, drop, read_at,
}
use spe.Base.Words.{add_u32}
use spe.Base.System.{eintr, other_errno, ReadAnswer, WriteAnswer, wrote, write_failed}
use spe.Buf
use spe.Buf.{Buf}
use spe.Buf.Text.{search}
use spe.Buf.Fd.{ReadCode, buf_error, failed, closed, count, read_fd_append}
use spe.Buf.Transfer.{transfer, transfer_all}

-- SPE_IO_READNONE, SPE_IO_READ, SPE_IO_READBYTES, SPE_IO_READUNTIL
pub data ReadType : Type 0 where
  read_none read_any read_bytes read_until : ReadType

-- `spe_io_t`
pub record Io : Type 0 where
  pub rbuf : Buf
  pub delim : List ℕ
  pub rbytes : ℕ
  pub rtype : ReadType
  pub is_closed : Bool
  pub is_error : Bool

abbrev pub buf_len : ℕ
buf_len = 4096

-- `calloc`ed, with an empty buffer
abbrev pub new_io : Io
new_io = record {
  rbuf = Buf.create;
  delim = [];
  rbytes = 0;
  rtype = read_none;
  is_closed = false;
  is_error = false;
}

-- `spe_io_create`, by calloc, open and `spe_buf_create`; the second result tells whether the descriptor
-- that was opened is closed again.
pub io_create : Bool → Bool → Bool → Option Io × Bool
io_create true true true = (some new_io, false)
io_create true true false = (none, true)
io_create true false b = (none, false)
io_create false o b = (none, false)

-- `spe_io_create_fd`, by calloc and `spe_buf_create`; the caller keeps the descriptor on a failure.
pub io_create_fd : Bool → Bool → Option Io
io_create_fd true true = some new_io
io_create_fd true false = none
io_create_fd false b = none

-- What a read returns: the `int`, the two buffers, and the answers that are left.
pub data Outcome : Type 0 where
  waiting : Outcome
  returned : ReadCode → Io → Buf → List (ℕ → ReadAnswer) → Outcome

module _ (realloc : List ℕ → ℕ → Option (List ℕ)) where
  -- The first `n` bytes of `_rbuf` go to the caller.
  unfoldable pub hand_over : Io → Buf → ℕ → Option (Option (ℕ × Io × Buf))
  hand_over io buf n = do
    r ← transfer realloc buf io.rbuf n
    some (some (n, record io { rbuf = r.1; rtype = read_none }, r.0))

  -- The tests at the head of the loop of `read_common`; `none` inside means: read more.
  unfoldable pub satisfy : ReadType → Io → Buf → Option (Option (ℕ × Io × Buf))
  unfolding hand_over
  satisfy read_none io buf = some none
  satisfy read_any io buf =
      if ltb 0 io.rbuf.len
      then (transfer_all realloc buf io.rbuf >>= λ r.
          some (some (io.rbuf.len, record io { rbuf = r.1; rtype = read_none }, r.0)))
      else some none
  satisfy read_bytes io buf =
      if leb io.rbytes io.rbuf.len then hand_over io buf io.rbytes else some none
  satisfy read_until io buf = search io.rbuf io.delim >>= λ p. elim p [
    | none ↦ some none
    | some pos ↦ hand_over io buf (add_u32 pos (length io.delim))
  ]

  -- Behind the loop: all that was read goes to the caller.
  unfoldable pub finish : ReadCode → Io → Buf → List (ℕ → ReadAnswer) → Option Outcome
  finish code io buf answers = transfer_all realloc buf io.rbuf >>= λ r.
      some (returned code (record io { rbuf = r.1; rtype = read_none }) r.0 answers)

  -- The branches behind the read; `again` is the next round of the loop.
  unfoldable pub on_read :
      (Io → Option Outcome) → Io → Buf → List (ℕ → ReadAnswer) → ReadCode × Buf → Option Outcome
  unfolding finish
  on_read again io buf answers (count n, b) = again (record io { rbuf = b })
  on_read again io buf answers (failed eintr, b) = again (record io { rbuf = b })
  on_read again io buf answers (failed e, b) =
      finish (failed e) (record io { rbuf = b; is_error = true }) buf answers
  on_read again io buf answers (buf_error, b) =
      finish buf_error (record io { rbuf = b; is_error = true }) buf answers
  on_read again io buf answers (closed, b) =
      finish closed (record io { rbuf = b; is_closed = true }) buf answers

  unfoldable pub read_common : List (ℕ → ReadAnswer) → Io → Buf → Option Outcome
  unfolding satisfy on_read
  read_common [] io buf = satisfy io.rtype io buf >>= λ s. elim s [
    | some (n, io', buf') ↦ some (returned (count n) io' buf' [])
    | none ↦ some waiting
  ]
  read_common (a ∷ answers) io buf = satisfy io.rtype io buf >>= λ s. elim s [
    | some (n, io', buf') ↦ some (returned (count n) io' buf' (a ∷ answers))
    | none ↦
        read_fd_append realloc a buf_len io.rbuf
        >>= on_read (λ io'. read_common answers io' buf) io buf answers
  ]

  -- The guard of the three calls: SPE_IO_CLOSED, or SPE_IO_ERROR, which leaves `errno` alone.
  unfoldable pub guarded : List (ℕ → ReadAnswer) → Io → Io → Buf → Option Outcome
  unfolding read_common
  guarded answers io io' buf =
      if io.is_closed
      then some (returned closed io buf answers)
      else if io.is_error
      then some (returned (failed other_errno) io buf answers)
      else read_common answers io' buf

  pub read : List (ℕ → ReadAnswer) → Io → Buf → Option Outcome
  unfolding guarded
  read answers io buf = guarded answers io (record io { rtype = read_any }) buf

  pub readbytes : List (ℕ → ReadAnswer) → Io → ℕ → Buf → Option Outcome
  unfolding guarded
  readbytes answers io len buf =
      guarded answers io (record io { rtype = read_bytes; rbytes = len }) buf

  unfoldable pub readuntil : List (ℕ → ReadAnswer) → Io → List ℕ → Buf → Option Outcome
  unfolding guarded
  readuntil answers io delim buf =
      guarded answers io (record io { rtype = read_until; delim = delim }) buf

-- The branches behind a write of the bytes `rest`, with `total` bytes written before; `file` grows
-- by those that the kernel takes. The result is `total_write`, `_error` and the file.
pub on_write :
    (ℕ → List ℕ → Option (ℕ × Bool × List ℕ))
    → ℕ
    → List ℕ
    → List ℕ
    → WriteAnswer
    → Option (ℕ × Bool × List ℕ)
on_write again total file rest (wrote k) = again (total + k) (file ++ take k rest)
on_write again total file rest (write_failed eintr) = again total file
on_write again total file rest (write_failed e) = some (total, true, file)

-- The loop of `spe_io_write`. Each answer is for the bytes that are left; `none` is a call that
-- still waits.
pub write_loop : List (List ℕ → WriteAnswer) → List ℕ → ℕ → List ℕ → Option (ℕ × Bool × List ℕ)
unfolding on_write
write_loop [] xs total file = if ltb total (length xs) then none else some (total, false, file)
write_loop (a ∷ answers) xs total file =
    let next : Option (ℕ × Bool × List ℕ) =
      on_write (write_loop answers xs) total file (drop total xs) (a (drop total xs)) in
    if ltb total (length xs) then next else some (total, false, file)

-- `spe_io_write`: the outer `none` is an access outside the buffer; a refusal, SPE_IO_ERROR,
-- leaves the file as it is.
pub write :
    List (List ℕ → WriteAnswer) → Io → Buf → List ℕ → Option (Option (Option ℕ × Io × List ℕ))
unfolding write_loop
write answers io buf file =
    if io.is_closed || io.is_error
    then some (some (none, io, file))
    else (read_at buf.mem buf.off buf.len >>= λ xs. elim (write_loop answers xs 0 file) [
      | none ↦ some none
      | some (total, err, file') ↦ some (some (some total, record io { is_error = err }, file'))
    ])
