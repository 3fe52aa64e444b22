-- ===== src/Conn/Calls.antt =====
-- src/spe_conn.c: the calls of a connection as data, and a run of them.
use spe.Base.{ℕ, Bool, Option, none, some, List, [], ◌∷◌, ◌>>=◌}
use spe.Base.System.{ReadAnswer, WriteAnswer}
use spe.Conn.{Conn, Loop}
use spe.Conn.Read.{Want, request, on_readable}
use spe.Conn.Write.{write, flush, on_writable}
use spe.Conn.Setup.{ConnectAnswer, SockError, connect, on_connected}

-- The calls of a user on a connection, and the handlers of its tasks.
pub data ConnCall : Type 0 where
  reads : Want → (ℕ → ReadAnswer) → ConnCall
  writes : List ℕ → ConnCall
  flushes : (List ℕ → WriteAnswer) → ConnCall
  connects : ConnectAnswer → ConnCall
  wakes_to_read : List (ℕ → ReadAnswer) → ConnCall
  wakes_to_write : (List ℕ → WriteAnswer) → ConnCall
  wakes_connected : SockError → ConnCall

module _ (realloc : List ℕ → ℕ → Option (List ℕ)) {W : Type 0} (loop : Loop W) where
  unfoldable pub woken : Conn → W → List ℕ → Option (Conn × W) → Conn × W × List ℕ
  woken c w sent none = (c, w, sent)
  woken c w sent (some p) = (p.0, p.1, sent)

  -- One call; a handler whose reads are all interrupted still waits, and is left as it was.
  unfoldable pub perform : ConnCall → Conn → W → List ℕ → Option (Conn × W × List ℕ)
  unfolding woken
  perform (reads want answer) c w sent =
      request realloc loop want answer c w >>= λ r. some (r.1, r.2, sent)
  perform (writes src) c w sent = write realloc c src >>= λ r. some (r.1, w, sent)
  perform (flushes answer) c w sent = flush loop answer c w sent >>= λ r. some (r.1, r.2, r.3)
  perform (connects answer) c w sent =
      let r : Bool × Conn × W = connect loop answer c w in some (r.1, r.2, sent)
  perform (wakes_to_read answers) c w sent =
      on_readable realloc loop answers c w >>= λ r. some (woken c w sent r)
  perform (wakes_to_write answer) c w sent = on_writable loop answer c w sent
  perform (wakes_connected err) c w sent =
      let r : Conn × W = on_connected loop err c w in some (r.0, r.1, sent)

  unfoldable pub perform_all : List ConnCall → Conn → W → List ℕ → Option (Conn × W × List ℕ)
  unfolding perform
  perform_all [] c w sent = some (c, w, sent)
  perform_all (k ∷ ks) c w sent = perform k c w sent >>= λ r. perform_all ks r.0 r.1 r.2
