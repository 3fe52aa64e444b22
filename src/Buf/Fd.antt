-- ===== src/Buf/Fd.antt =====
-- src/spe_buf.c, `spe_buf_read_fd_append` and `spe_buf_read_fd_copy`. The kernel's answer is a
-- function of the number of bytes asked for.
pub mod Receive
use spe.Base.{
  ℕ, ◌-◌, ◌≤◌, ◌<◌, ◌≡◌, Bool, true, false, Option, none, some, List, if◌then◌else◌, ◌>>=◌, length,
}
use spe.Base.Words.{sub_u32}
use spe.Base.System.{Errno, ReadAnswer, got, at_end, read_failed}
use spe.Buf.{Buf, compact_moved, place, copy_reserved, reserve, reserve_all}

-- The `int` that is returned: SPE_BUF_ERROR, -1 with `errno`, 0, or the number of bytes.
pub data ReadCode : Type 0 where
  buf_error : ReadCode
  failed : Errno → ReadCode
  closed : ReadCode
  count : ℕ → ReadCode

-- The bytes are written behind the content.
unfoldable pub append_answer : Buf → ReadAnswer → Option (ReadCode × Buf)
append_answer b (got xs) = place b xs >>= λ b'. some (count (length xs), b')
append_answer b at_end = some (closed, b)
append_answer b (read_failed e) = some (failed e, b)

-- The bytes are written over the content.
pub copy_answer : Buf → ReadAnswer → Option (ReadCode × Buf)
copy_answer b (got xs) = copy_reserved b xs >>= λ b'. some (count (length xs), b')
copy_answer b at_end = some (closed, b)
copy_answer b (read_failed e) = some (failed e, b)

module _ (realloc : List ℕ → ℕ → Option (List ℕ)) where
  unfoldable pub read_fd_append : (ℕ → ReadAnswer) → ℕ → Buf → Option (ReadCode × Buf)
  unfolding append_answer
  read_fd_append read len b = do
    r ← reserve realloc b len
    if r.0
        then (compact_moved r.1 >>= λ c. append_answer c (read (sub_u32 (sub_u32 c.size c.len) 1)))
        else some (buf_error, r.1)

  pub read_fd_copy : (ℕ → ReadAnswer) → ℕ → Buf → Option (ReadCode × Buf)
  unfolding copy_answer
  read_fd_copy read len b = do
    r ← reserve_all realloc b len
    if r.0 then copy_answer r.1 (read (sub_u32 r.1.size 1)) else some (buf_error, r.1)
