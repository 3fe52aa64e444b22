-- ===== src/Conn/Keeps.antt =====
-- src/spe_conn.c: the calls of a connection one after another, and what they keep of the scheduler and
-- of epoll, whatever these are.
use spe.Base.{
  ℕ, Bool, true, false, Bool-cases, inl, inr, not, Option, none, some, List, [], ◌∷◌, ◌&&◌, ◌||◌,
  ◌==◌,
}
use spe.Base.System.{ReadAnswer, WriteAnswer}
use spe.Buf.{Buf}
use spe.Buf.Fd.{ReadCode, read_fd_append}
use spe.Epoll.{Mask}
use spe.Conn.{Conn, ConnHandler, Loop, start_timer, stop_timer}
use spe.Conn.Calls.{
  ConnCall, reads, writes, flushes, connects, wakes_to_read, wakes_to_write, wakes_connected, woken,
  perform, perform_all,
}
use spe.Conn.Read.{
  buf_size, Want, anything, until, bytes_of_number, request, sync_flags, normal_flags, on_readable,
  read_sync, sync_end, go_on, settle, await, read_async, end_read, check_end, read_normal_on,
  read_again, deliver, deliver_reading, hand_over_all,
}
use spe.Conn.Write.{write, flush, on_writable, write_async, end_write, write_once}
use spe.Conn.Setup.{
  ConnectAnswer, SockError, connect, on_connected, end_connect, connect_async, no_address,
  connected, in_progress, refused,
}
use spe.Base.Results.{Within, Within-bind, Within-chain, Within-if}

-- Every call that a connection makes keeps `P`.
pub record Keeps {W : Type 0} (P : W → Type 0) (loop : Loop W) : Type 0 where
  pub set_handler : (w : W) (t : ℕ) (h : ConnHandler) → P w → P (loop.set_handler w t h)
  pub schedule : (w : W) (t : ℕ) → P w → P (loop.schedule w t)
  pub schedule_timeout : (w : W) (t ms : ℕ) → P w → P (loop.schedule_timeout w t ms)
  pub dequeue : (w : W) (t : ℕ) → P w → P (loop.dequeue w t)
  pub enable : (w : W) (fd : ℕ) (m : Mask) (t : ℕ) → P w → P (loop.enable w fd m t)
  pub disable : (w : W) (fd : ℕ) (m : Mask) → P w → P (loop.disable w fd m)

module _ (realloc : List ℕ → ℕ → Option (List ℕ)) {W : Type 0} (loop : Loop W) (P : W → Type 0)
    (keeps : Keeps P loop) where
  start_timer-Keeps : (w : W) (t ms : ℕ) → P w → P (start_timer loop w t ms)
  unfolding start_timer
  start_timer-Keeps w t ms h = elim (Bool-cases (ms == 0)) [
    | inl q ↦ rw q h
    | inr q ↦ rw q (keeps.schedule_timeout w t ms h)
  ]

  stop_timer-Keeps : (w : W) (t ms : ℕ) → P w → P (stop_timer loop w t ms)
  unfolding stop_timer
  stop_timer-Keeps w t ms h = elim (Bool-cases (ms == 0)) [
    | inl q ↦ rw q h
    | inr q ↦ rw q (keeps.dequeue w t h)
  ]

  wait-Keeps :
      (w : W) (fd t ms : ℕ) (m : Mask) (h : ConnHandler)
      → P w
      → P (start_timer loop (loop.enable (loop.set_handler w t h) fd m t) t ms)
  wait-Keeps w fd t ms m h v =
      start_timer-Keeps _ t ms (keeps.enable _ fd m t (keeps.set_handler w t h v))

  end-Keeps :
      (w : W) (fd t ms u : ℕ) (m : Mask)
      → P w
      → P (loop.schedule (stop_timer loop (loop.disable w fd m) t ms) u)
  end-Keeps w fd t ms u m v = keeps.schedule _ u (stop_timer-Keeps _ t ms (keeps.disable w fd m v))

  await-Keeps : (want : Want) (c : Conn) (w : W) → P w → P (await realloc loop want c w).1
  unfolding await read_async
  await-Keeps anything c w v = wait-Keeps w _ _ _ _ _ v
  await-Keeps (until d) c w v = wait-Keeps w _ _ _ _ _ v
  await-Keeps (bytes_of_number n) c w v = wait-Keeps w _ _ _ _ _ v

  settle-Keeps :
      (want : Want) (c : Conn) (w : W) (d : Option Conn)
      → P w
      → P (settle realloc loop want c w d).2
  unfolding settle
  settle-Keeps want c w none v = await-Keeps want c w v
  settle-Keeps want c w (some c') v = keeps.schedule w _ v

  go_on-Keeps :
      (want : Want) (s : Bool × Conn × W)
      → P s.2
      → Within (λ r. P (r.2)) (go_on realloc loop want s)
  unfolding go_on
  go_on-Keeps want (true, c, w) v = v
  go_on-Keeps want (false, c, w) v =
      Within-bind (λ r. P (r.2)) (deliver realloc want c) _ (λ d. settle-Keeps want c w d v)

  sync_end-Keeps : (c : Conn) (w : W) → P w → Within (λ r. P (r.2)) (sync_end realloc loop c w)
  unfolding sync_end
  sync_end-Keeps c w v =
      Within-if (λ r. P (r.2)) (c.is_error || c.is_closed) _ _
        (Within-bind (λ r. P (r.2)) (hand_over_all realloc c) _ (λ c'. keeps.schedule w _ v)) v

  request-Keeps :
      (want : Want) (answer : ℕ → ReadAnswer) (c : Conn) (w : W)
      → P w
      → Within (λ r. P (r.2)) (request realloc loop want answer c w)
  unfolding request read_sync
  request-Keeps want answer c w v =
      Within-if (λ r. P (r.2)) (c.is_closed || c.is_error) _ _ v
        (Within-chain (λ r. P (r.2)) (λ r. P (r.2)) (read_sync realloc loop answer c w) _
          (Within-bind (λ r. P (r.2)) (read_fd_append realloc answer buf_size c.read_buffer) _
            (λ r. sync_end-Keeps (sync_flags r.0 (record c { read_buffer = r.1 })) w v))
          (go_on-Keeps want))

  end_read-Keeps : (c : Conn) (w : W) → P w → P (end_read realloc loop c w).1
  unfolding end_read
  end_read-Keeps c w v = end-Keeps w _ _ _ _ _ v

  check_end-Keeps : (c : Conn) (w : W) (d : Option Conn) → P w → P (check_end realloc loop c w d).1
  unfolding check_end
  check_end-Keeps c w (some c') v = end_read-Keeps c' w v
  check_end-Keeps c w none v = elim (Bool-cases (c.is_closed || c.is_error)) [
    | inl q ↦ rw q (end_read-Keeps c w v)
    | inr q ↦ rw q v
  ]

  on_writable-Keeps :
      (answer : List ℕ → WriteAnswer) (c : Conn) (w : W) (sent : List ℕ)
      → P w
      → Within (λ r. P (r.1)) (on_writable loop answer c w sent)
  unfolding on_writable end_write
  on_writable-Keeps answer c w sent v =
      Within-if (λ r. P (r.1)) (not (c.write_expire_time == 0) && loop.timed_out w c.write_task) _ _
        (end-Keeps w _ _ _ _ _ v)
        (Within-bind (λ r. P (r.1)) (write_once answer c sent) _
          (λ o. elim (Bool-cases o.2) [ inl q ↦ rw q (end-Keeps w _ _ _ _ _ v) | inr q ↦ rw q v ]))

  flush-Keeps :
      (answer : List ℕ → WriteAnswer) (c : Conn) (w : W) (sent : List ℕ)
      → P w
      → Within (λ r. P (r.2)) (flush loop answer c w sent)
  unfolding flush write_async
  flush-Keeps answer c w sent v =
      Within-if (λ r. P (r.2)) (c.is_closed || c.is_error) _ _ v
        (Within-bind (λ r. P (r.2)) (write_once answer c sent) _
          (λ o. elim (Bool-cases o.2) [
            | inl q ↦ rw q (keeps.schedule w _ v)
            | inr q ↦ rw q (wait-Keeps w _ _ _ _ _ v)
          ]))

  connect-Keeps : (a : ConnectAnswer) (c : Conn) (w : W) → P w → P (connect loop a c w).2
  unfolding connect connect_async
  connect-Keeps no_address c w v = v
  connect-Keeps connected c w v = keeps.schedule w _ v
  connect-Keeps refused c w v = keeps.schedule w _ v
  connect-Keeps in_progress c w v = wait-Keeps w _ _ _ _ _ v

  on_connected-Keeps : (err : SockError) (c : Conn) (w : W) → P w → P (on_connected loop err c w).1
  unfolding on_connected end_connect
  on_connected-Keeps err c w v =
      elim (Bool-cases (not (c.read_expire_time == 0) && loop.timed_out w c.read_task)) [
        | inl q ↦ rw q (end-Keeps w _ _ _ _ _ v)
        | inr q ↦ rw q (end-Keeps w _ _ _ _ _ v)
      ]

  abbrev Later : Option (Conn × W) → Type 0
  Later o = Within (λ (p : Conn × W). P p.1) o

  read_normal_on-Keeps :
      (c : Conn) (w : W) (o : Option (ReadCode × Buf))
      → P w
      → Within Later (read_normal_on realloc loop c w o)
  unfolding read_normal_on
  read_normal_on-Keeps c w none v = tt
  read_normal_on-Keeps c w (some (code, b)) v =
      let c' : Conn = normal_flags code (record c { read_buffer = b }) in
      Within-bind Later (deliver_reading realloc loop c'.reading c') _
        (λ d. check_end-Keeps c' w d v)

  on_readable-Keeps :
      (answers : List (ℕ → ReadAnswer)) (c : Conn) (w : W)
      → P w
      → Within Later (on_readable realloc loop answers c w)
  unfolding on_readable
  on_readable-Keeps answers c w v =
      Within-if Later (not (c.read_expire_time == 0) && loop.timed_out w c.read_task) _ _
        (end_read-Keeps (record c { read_timeout = true }) w v)
        (Within-bind Later (read_again realloc loop answers c.read_buffer) _
          (λ o. read_normal_on-Keeps c w o v))

  woken-Keeps :
      (c : Conn) (w : W) (sent : List ℕ) (r : Option (Conn × W))
      → P w
      → Later r
      → P (woken realloc loop c w sent r).1
  unfolding woken
  woken-Keeps c w sent none v h = v
  woken-Keeps c w sent (some p) v h = h

  perform-Keeps :
      (k : ConnCall) (c : Conn) (w : W) (sent : List ℕ)
      → P w
      → Within (λ r. P (r.1)) (perform realloc loop k c w sent)
  unfolding perform
  perform-Keeps (reads want answer) c w sent v =
      Within-chain (λ r. P (r.2)) (λ r. P (r.1)) (request realloc loop want answer c w) _
        (request-Keeps want answer c w v) (λ r h. h)
  perform-Keeps (writes src) c w sent v =
      Within-bind (λ r. P (r.1)) (write realloc c src) _ (λ r. v)
  perform-Keeps (flushes answer) c w sent v =
      Within-chain (λ r. P (r.2)) (λ r. P (r.1)) (flush loop answer c w sent) _
        (flush-Keeps answer c w sent v) (λ r h. h)
  perform-Keeps (connects answer) c w sent v = connect-Keeps answer c w v
  perform-Keeps (wakes_to_read answers) c w sent v =
      Within-chain Later (λ r. P (r.1)) (on_readable realloc loop answers c w) _
        (on_readable-Keeps answers c w v) (λ r h. woken-Keeps c w sent r v h)
  perform-Keeps (wakes_to_write answer) c w sent v = on_writable-Keeps answer c w sent v
  perform-Keeps (wakes_connected err) c w sent v = on_connected-Keeps err c w v

  -- What every call of the scheduler and of epoll keeps, the calls of a connection keep, in any order.
  pub perform_all-Keeps :
      (ks : List ConnCall) (c : Conn) (w : W) (sent : List ℕ)
      → P w
      → Within (λ r. P (r.1)) (perform_all realloc loop ks c w sent)
  unfolding perform_all
  perform_all-Keeps [] c w sent v = v
  perform_all-Keeps (k ∷ ks) c w sent v =
      Within-chain (λ r. P (r.1)) (λ r. P (r.1)) (perform realloc loop k c w sent) _
        (perform-Keeps k c w sent v) (λ r h. perform_all-Keeps ks r.0 r.1 r.2 h)
