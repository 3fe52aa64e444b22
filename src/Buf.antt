-- ===== src/Buf.antt =====
-- src/spe_buf.c and src/spe_buf.h: the growing byte buffer `spe_buf_t`.
-- The block at `_start` is the list `mem`, so `_start == NULL` is the empty list, and the pointer
-- `data` is its offset `off`. Every access is checked against the block: `none` is an access
-- outside it. `realloc` is a parameter, which answers `none` for NULL.
pub mod Valid
pub mod Move
pub mod Grow
pub mod Append
pub mod Consume
pub mod Total
pub mod Run
pub mod Fd
pub mod Transfer
pub mod Text
pub mod Split
use spe.Base.{
  ℕ, ◌+◌, ◌-◌, ◌/◌, ◌≡◌, Bool, true, false, Option, none, some, List, [], ◌∷◌, ltb, leb, ◌==◌,
  if◌then◌else◌, ◌>>=◌, length, take, drop, read_at, write_at,
}
use spe.Base.Words.{add_u32, sub_u32, mul_u32}

-- `spe_buf_t`
pub record Buf : Type 0 where
  pub mem : List ℕ
  pub off : ℕ
  pub len : ℕ
  pub size : ℕ

-- What a client sees: the `len` bytes from `data` on.
abbrev pub bytes : Buf → List ℕ
bytes b = take b.len (drop b.off b.mem)

-- calloc'ed: both pointers are NULL
abbrev pub create : Buf
create = record { mem = []; off = 0; len = 0; size = 0 }

-- buf->data[buf->len] = 0
unfoldable pub terminate : Buf → Option Buf
terminate b = do m ← write_at b.mem (b.off + b.len) (0 ∷ []); some (record b { mem = m })

-- memmove(buf->_start, buf->data, buf->len); buf->data = buf->_start; buf->data[buf->len] = 0;
unfoldable pub compact : Buf → Option Buf
unfolding terminate
compact b = do
  xs ← read_at b.mem b.off b.len
  m ← write_at b.mem 0 xs
  terminate (record b { mem = m; off = 0 })

-- The code tests `data != _start` before it compacts.
unfoldable pub compact_moved : Buf → Option Buf
unfolding compact
compact_moved b = if b.off == 0 then some b else compact b

unfoldable pub clean : Buf → Option Buf
unfolding terminate
clean b =
    let b' : Buf = record b { off = 0; len = 0 } in if b'.size == 0 then some b' else terminate b'

unfoldable pub lconsume : Buf → ℕ → Option Buf
unfolding terminate
lconsume b n =
    let k : ℕ = if ltb b.len n then b.len else n in
    terminate (record b { off = b.off + k; len = b.len - k })

unfoldable pub rconsume : Buf → ℕ → Option Buf
unfolding terminate
rconsume b n =
    let k : ℕ = if leb b.len n then b.len else n in terminate (record b { len = b.len - k })

-- memcpy behind the content, the new length, the terminator
unfoldable pub place : Buf → List ℕ → Option Buf
unfolding terminate
place b src = do
  m ← write_at b.mem (b.off + b.len) src
  terminate (record b { mem = m; len = add_u32 b.len (length src) })

-- `spe_buf_append` behind its first test: room at the tail, then the bytes.
unfoldable pub append_reserved : Buf → List ℕ → Option Buf
unfolding compact place
append_reserved b src = do
  b' ← if ltb (sub_u32 b.size b.len) (b.off + add_u32 (length src) 1) then compact b else some b
  place b' src

unfoldable pub copy_reserved : Buf → List ℕ → Option Buf
unfolding terminate
copy_reserved b src = do
  m ← write_at b.mem 0 src
  terminate (record b { mem = m; off = 0; len = length src })

module _ (realloc : List ℕ → ℕ → Option (List ℕ)) where
  -- The tail of `buf_expand`, with the size that it asks for.
  unfoldable pub resize : Buf → ℕ → Bool × Buf
  resize b new_size = elim (realloc b.mem new_size) [
    | none ↦ (false, b)
    | some m ↦ (true, record b { mem = m; off = 0; size = new_size })
  ]

  unfoldable pub expand : Buf → ℕ → Option (Bool × Buf)
  unfolding compact_moved resize
  expand b n = do b' ← compact_moved b; some (resize b' (mul_u32 25 n / 16))

  -- The first test of `spe_buf_append` and of `spe_buf_read_fd_append`.
  unfoldable pub reserve : Buf → ℕ → Option (Bool × Buf)
  unfolding expand
  reserve b n =
      if ltb (sub_u32 b.size b.len) (add_u32 n 1)
      then expand b (add_u32 (add_u32 b.size n) 1)
      else some (true, b)

  -- The first test of `spe_buf_copy` and of `spe_buf_read_fd_copy`.
  unfoldable pub reserve_all : Buf → ℕ → Option (Bool × Buf)
  unfolding expand
  reserve_all b n = if ltb b.size (add_u32 n 1) then expand b (add_u32 n 1) else some (true, b)

  -- `src` holds the `len` bytes that are read.
  unfoldable pub append : Buf → List ℕ → Option (Bool × Buf)
  unfolding reserve append_reserved
  append b src = do
    r ← reserve b (length src)
    if r.0 then (append_reserved r.1 src >>= λ b'. some (true, b')) else some (false, r.1)

  unfoldable pub copy : Buf → List ℕ → Option (Bool × Buf)
  unfolding reserve_all copy_reserved
  copy b src = do
    r ← reserve_all b (length src)
    if r.0 then (copy_reserved r.1 src >>= λ b'. some (true, b')) else some (false, r.1)
