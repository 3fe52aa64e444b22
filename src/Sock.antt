-- ===== src/Sock.antt =====
-- src/spe_sock.c and src/spe_sock.h: sockets. What the system calls answer is an argument; the
-- descriptors that are closed are a list.
pub mod Closed
use spe.Base.{
  ℕ, zero, suc, ◌+◌, Bool, true, false, not, Option, none, some, List, [], ◌∷◌, leb, if◌then◌else◌,
  ◌==◌, ◌&&◌, ◌||◌,
}
use spe.Base.System.{Errno, eintr, eagain}

-- The loop of `sock_addr_valid`: the number of dots, or `none` for another character that is no digit.
unfoldable pub count_dots : List ℕ → ℕ → Option ℕ
count_dots [] dots = some dots
count_dots (c ∷ cs) dots =
    if leb 48 c && leb c 57
    then count_dots cs dots
    else if c == 46
    then count_dots cs (suc dots)
    else none

unfoldable pub has_three : Option ℕ → Bool
has_three none = false
has_three (some dots) = dots == 3

-- `sock_addr_valid`; `none` is NULL.
unfoldable pub sock_addr_valid : Option (List ℕ) → Bool
unfolding count_dots has_three
sock_addr_valid none = false
sock_addr_valid (some addr) = has_three (count_dots addr 0)

-- What the system calls of a server answer: whether each succeeds.
pub record ServerCalls : Type 0 where
  pub socket : Option ℕ
  pub set_reuseaddr : Bool
  pub set_keepalive : Bool
  pub set_defer_accept : Bool
  pub set_linger : Bool
  pub inet_aton : List ℕ → Bool
  pub bind : Bool
  pub listen : Bool

-- The address: a given one must be understood, and any other stands for all.
unfoldable pub address_ok : ServerCalls → Option (List ℕ) → Bool
unfolding sock_addr_valid
address_ok k none = true
address_ok k (some addr) = if sock_addr_valid (some addr) then k.inet_aton addr else true

-- goto error_out unless all calls succeed; the second part is what was closed.
unfoldable pub server_socket : Option ℕ → Bool → Option ℕ × List ℕ
server_socket none ok = (none, [])
server_socket (some fd) true = (some fd, [])
server_socket (some fd) false = (none, fd ∷ [])

-- `spe_sock_tcp_server`; `none` is -1.
unfoldable pub tcp_server : ServerCalls → Option (List ℕ) → Option ℕ × List ℕ
unfolding address_ok server_socket
tcp_server k addr = server_socket k.socket (
    k.set_reuseaddr
    && (k.set_keepalive
        && (k.set_defer_accept && (k.set_linger && (address_ok k addr && (k.bind && k.listen))))))

-- `spe_sock_udp_server`
unfoldable pub udp_server : ServerCalls → Option (List ℕ) → Option ℕ × List ℕ
unfolding address_ok server_socket
udp_server k addr = server_socket k.socket (address_ok k addr && k.bind)

-- What one round of `spe_sock_accept_timeout` meets: poll fails or times out, or accept answers.
pub data Round : Type 0 where
  poll_failed : Errno → Round
  poll_timeout : Round
  accept_failed : Errno → Round
  accepted : ℕ → Round

-- What it returns: a negative number, 0 for the time limit, or a descriptor.
pub data AcceptCode : Type 0 where
  accept_error accept_timeout : AcceptCode
  accept_fd : ℕ → AcceptCode

-- `spe_sock_accept_timeout`; at the end of the list it still waits.
unfoldable pub sock_accept_timeout : List Round → Option AcceptCode
sock_accept_timeout [] = none
sock_accept_timeout (poll_failed eintr ∷ rs) = sock_accept_timeout rs
sock_accept_timeout (poll_failed e ∷ rs) = some accept_error
sock_accept_timeout (poll_timeout ∷ rs) = some accept_timeout
sock_accept_timeout (accept_failed eintr ∷ rs) = sock_accept_timeout rs
sock_accept_timeout (accept_failed eagain ∷ rs) = sock_accept_timeout rs
sock_accept_timeout (accept_failed e ∷ rs) = some accept_error
sock_accept_timeout (accepted fd ∷ rs) = some (accept_fd fd)

-- `spe_sock_set_block` on the flag O_NONBLOCK: whether fcntl reads the flags and writes them.
unfoldable pub set_block : Bool → Bool → Bool → Bool → Bool × Bool
set_block false writes block nonblock = (false, nonblock)
set_block true false block nonblock = (false, nonblock)
set_block true true block nonblock = (true, not block)
