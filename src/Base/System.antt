-- ===== src/Base/System.antt =====
-- What the kernel answers to a system call.
use Prim.Native.Nat.{ℕ}
use mathlib.Core.List.{List}

-- The values of `errno` that the source tells apart.
pub data Errno : Type 0 where
  eintr eagain epipe einprogress other_errno : Errno

-- read: some bytes, the end of the stream, or -1.
pub data ReadAnswer : Type 0 where
  got : List ℕ → ReadAnswer
  at_end : ReadAnswer
  read_failed : Errno → ReadAnswer

-- write: the number of bytes taken, or -1.
pub data WriteAnswer : Type 0 where
  wrote : ℕ → WriteAnswer
  write_failed : Errno → WriteAnswer
