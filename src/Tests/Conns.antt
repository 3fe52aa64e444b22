-- ===== src/Tests/Conns.antt =====
-- spe_conn.c at concrete inputs.
use spe.Base.{ℕ, false, List, [], ◌∷◌, leb, if◌then◌else◌}
use spe.Base.System.{eintr, ReadAnswer, got, at_end, read_failed, WriteAnswer, wrote}
use spe.Buf.{Buf}
use spe.Conn.{Conn, Loop, read_any}
use spe.Conn.Setup.{blank_slot}

-- The tasks that were scheduled, the last one first.
abbrev tasks_loop : Loop (List ℕ)
tasks_loop = record {
  init_task = λ w t. w;
  set_handler = λ w t h. w;
  schedule = λ w t. t ∷ w;
  schedule_timeout = λ w t ms. w;
  dequeue = λ w t. w;
  timed_out = λ w t. false;
  enable = λ w fd m t. w;
  disable = λ w fd m. w;
  set_nonblocking = λ w fd. w;
  close = λ w fd. w;
}

-- A connection on descriptor 5 that waits for any bytes.
abbrev waiting_conn : Conn
waiting_conn = record (blank_slot 5).conn { fd = 5; reading = read_any }

-- "a\nb\n", if the kernel is asked for as much
abbrev two_lines : ℕ → ReadAnswer
two_lines n = if leb 4 n then got (97 ∷ 10 ∷ 98 ∷ 10 ∷ []) else at_end

abbrev interrupts : ℕ → ReadAnswer
interrupts n = read_failed eintr

-- "hello" in a block of 8
abbrev hello_out : Buf
hello_out = record {
  mem = 104 ∷ 101 ∷ 108 ∷ 108 ∷ 111 ∷ 0 ∷ 7 ∷ 7 ∷ [];
  off = 0;
  len = 5;
  size = 8;
}

abbrev hello_text : List ℕ
hello_text = 104 ∷ 101 ∷ 108 ∷ 108 ∷ 111 ∷ []

abbrev writing_conn : Conn
writing_conn = record waiting_conn { write_buffer = hello_out }

abbrev takes_two : List ℕ → WriteAnswer
takes_two xs = wrote 2
