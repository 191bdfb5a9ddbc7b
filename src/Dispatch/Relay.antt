-- ===== src/Dispatch/Relay.antt =====
-- Socket.c on TCP: sending a text to the peers.
use sctp_sandbox_c.Base.{ℕ, ◌≡◌, List, ◌++◌, map, take}
use mathlib.Core.List.{reverse}
use sctp_sandbox_c.Protocol.{tcp}
use sctp_sandbox_c.Os.{Env, Call, History, ok}
use sctp_sandbox_c.Os.Laws.{IsLawful}
use sctp_sandbox_c.Peers.{Socket}
use sctp_sandbox_c.Tcp.{send_socket_tcp}
use sctp_sandbox_c.Tcp.Laws.{live_fds, SendsPass, send_each_tcp-live}
use sctp_sandbox_c.Dispatch.{send_by_protocol, send_socket}

-- The sends of a text to the peers below the count that are connected.
abbrev pub relayed : Socket → List ℕ → History → History
relayed s msg h = reverse (map (λ fd. Call.send fd msg) (live_fds (take s.peer_count s.peers))) ++ h

module _ (env : Env) (L : IsLawful env) where
  pub send_socket-relays :
      (s : Socket) (msg : List ℕ) (h : History)
      → s.protocol ≡ tcp
      → SendsPass env msg
      → send_socket env s msg h ≡ ok tt (relayed s msg h)
  unfolding send_socket send_by_protocol send_socket_tcp
  send_socket-relays s msg h on_tcp pass =
      rw (on_tcp, send_by_protocol)
        (send_each_tcp-live env L msg (take s.peer_count s.peers) h pass)
