-- ===== src/UnixSocket/Scheduled.antt =====
-- SocketUnix.c: what datagrams hand to the scheduler.
use sctp_sandbox_c.Base.{ℕ, ℤ, List, [], ◌∷◌, Option, none, some, take}
use sctp_sandbox_c.Os.{Env, IpSocket, M, pure}
use sctp_sandbox_c.Os.Calls.{Calls-pure, Calls-bind, Calls-if, Calls-checked, calls}
use sctp_sandbox_c.Os.Scheduled.{Streams}
use sctp_sandbox_c.IpSocket.{IpSockets, listed}
use sctp_sandbox_c.Peers.{Peer, Socket, quit_msg, c_string}
use sctp_sandbox_c.Peers.Scheduled.{
  add_peer-Streams, terminate_message-Streams, remove_peer-Streams,
}
use sctp_sandbox_c.UnixSocket.{
  handle_comm_up_unix, connect_each_unix, connect_socket_unix, find_peer_by_path,
  handle_graceful_shutdown_unix, delivered_unix, handle_message_unix, send_each_unix,
  send_socket_unix,
}

handle_comm_up_unix-Streams : (s : Socket) (path : List ℕ) → Streams (handle_comm_up_unix s path)
unfolding handle_comm_up_unix
handle_comm_up_unix-Streams s path = search (calls, add_peer-Streams)

connect_each_unix-Streams :
    (s : Socket) (remotes : List IpSocket) → Streams (connect_each_unix s remotes)
unfolding connect_each_unix
connect_each_unix-Streams s [] = Calls-pure s
connect_each_unix-Streams s (remote ∷ rest) =
    Calls-bind _ _ (handle_comm_up_unix-Streams s remote.addr) λ t. connect_each_unix-Streams t rest

pub connect_socket_unix-Streams :
    (s : Socket) (remotes : IpSockets) → Streams (connect_socket_unix s remotes)
unfolding connect_socket_unix
connect_socket_unix-Streams s remotes = connect_each_unix-Streams s (listed remotes)

module _ (env : Env) where
  met_or_known-Streams :
      (s : Socket) (path : List ℕ) (o : Option ℕ)
      → Streams (elim o as (λ _. M Socket) [ none ↦ handle_comm_up_unix s path | some i ↦ pure s ])
  met_or_known-Streams s path none = handle_comm_up_unix-Streams s path
  met_or_known-Streams s path (some i) = Calls-pure s

  delivered_unix-Streams : (s : Socket) (path : List ℕ) → Streams (delivered_unix env s path)
  unfolding delivered_unix handle_graceful_shutdown_unix
  delivered_unix-Streams s path =
      Calls-if (env.equals (c_string s.msg_buffer) quit_msg) _ _
        (remove_peer-Streams env s (find_peer_by_path env s path))
        (met_or_known-Streams s path (find_peer_by_path env s path))

  pub handle_message_unix-Streams : (s : Socket) (fd : ℤ) → Streams (handle_message_unix env s fd)
  unfolding handle_message_unix
  handle_message_unix-Streams s fd =
      search (calls, terminate_message-Streams, delivered_unix-Streams)

  send_each_unix-Streams :
      (s : Socket) (msg : List ℕ) (peers : List Peer) → Streams (send_each_unix env s msg peers)
  unfolding send_each_unix
  send_each_unix-Streams s msg [] = Calls-pure tt
  send_each_unix-Streams s msg (p ∷ peers) =
      let rest = send_each_unix-Streams s msg peers in
      Calls-if (env.empty p.path) _ _ rest (Calls-bind _ _ (Calls-checked env _ _ tt) λ _. rest)

  pub send_socket_unix-Streams : (s : Socket) (msg : List ℕ) → Streams (send_socket_unix env s msg)
  unfolding send_socket_unix
  send_socket_unix-Streams s msg = send_each_unix-Streams s msg (take s.peer_count s.peers)
