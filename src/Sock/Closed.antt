-- ===== src/Sock/Closed.antt =====
-- src/spe_sock.c: the socket of a server is returned or closed.
use spe.Base.{ℕ, ◌≡◌, refl, ◌⊎◌, inl, inr, Bool, true, false, Option, none, some, List, [], ◌∷◌}
use spe.Sock.{ServerCalls, server_socket, tcp_server, udp_server}

server_socket-closed :
    (fd : ℕ) (ok : Bool)
    → (server_socket (some fd) ok ≡ (some fd, [])) ⊎ (server_socket (some fd) ok ≡ (none, fd ∷ []))
unfolding server_socket
server_socket-closed fd true = inl refl
server_socket-closed fd false = inr refl

-- A server on a socket that could be made gives this socket, or closes it and fails.
tcp_server-closed :
    (k : ServerCalls) (addr : Option (List ℕ)) (fd : ℕ)
    → k.socket ≡ some fd
    → (tcp_server k addr ≡ (some fd, [])) ⊎ (tcp_server k addr ≡ (none, fd ∷ []))
unfolding tcp_server
tcp_server-closed k addr fd e = rw e (server_socket-closed fd _)

udp_server-closed :
    (k : ServerCalls) (addr : Option (List ℕ)) (fd : ℕ)
    → k.socket ≡ some fd
    → (udp_server k addr ≡ (some fd, [])) ⊎ (udp_server k addr ≡ (none, fd ∷ []))
unfolding udp_server
udp_server-closed k addr fd e = rw e (server_socket-closed fd _)
