-- ===== src/Conn/Wake.antt =====
-- src/spe_conn.c, `read_normal`: the handler that goes on with a read which waits.
use spe.Buf.{Buf}
use spe.Conn.{Conn}
