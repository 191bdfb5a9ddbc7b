-- ===== src/UnixSocket.antt =====
-- SocketUnix.c: datagram sockets in the abstract namespace; a peer is a path.
pub mod Table
pub mod Scheduled
pub mod Laws
pub mod Paths
use sctp_sandbox_c.Base.{
  ℕ, Bool, List, [], ◌∷◌, Option, none, some, ltb, leb, length, take, ℤ, if◌then◌else◌,
}
use sctp_sandbox_c.Errors.{Check}
use sctp_sandbox_c.Os.{Env, Call, IpSocket, M, Fault, pure, fails, ◌>>=◌, ◌>>◌, checked}
use sctp_sandbox_c.IpSocket.{IpSockets, listed}
use sctp_sandbox_c.Peers.{
  msg_buffer_size, Peer, Socket, peers_max_count, path_max_length, find_peer, add_peer, remove_peer,
  terminate_message, c_string, quit_msg,
}

named_peer : List ℕ → Peer → Peer
named_peer path p = record p { path = path }

-- `strcpy(peer->path, path)` writes one byte more than the text has.
unfoldable pub handle_comm_up_unix : Socket → List ℕ → M Socket
unfolding named_peer
handle_comm_up_unix s path =
    if leb peers_max_count s.peer_count
    then pure s
    else if ltb (length path) path_max_length
    then add_peer s (named_peer path)
    else fails Fault.path_overflow

unfoldable pub connect_each_unix : Socket → List IpSocket → M Socket
unfolding handle_comm_up_unix
connect_each_unix s [] = pure s
connect_each_unix s (remote ∷ rest) =
    let more = λ (t : Socket). connect_each_unix t rest in
    handle_comm_up_unix s remote.addr >>= more

unfoldable pub connect_socket_unix : Socket → IpSockets → M Socket
unfolding connect_each_unix
connect_socket_unix s remotes = connect_each_unix s (listed remotes)

module _ (env : Env) where
  abbrev pub has_path : List ℕ → Peer → Bool
  has_path path p = env.equals p.path path

  unfoldable pub find_peer_by_path : Socket → List ℕ → Option ℕ
  unfolding find_peer
  find_peer_by_path s path = find_peer (has_path path) s.peer_count s.peers

  unfoldable pub handle_graceful_shutdown_unix : Socket → List ℕ → M Socket
  handle_graceful_shutdown_unix s path = remove_peer env s (find_peer_by_path s path)

  -- What a message does, once it is in the buffer; `path` is the sender's.
  unfoldable pub delivered_unix : Socket → List ℕ → M Socket
  delivered_unix s path =
      if env.equals (c_string s.msg_buffer) quit_msg
      then handle_graceful_shutdown_unix s path
      else elim (find_peer_by_path s path) [ none ↦ handle_comm_up_unix s path | some i ↦ pure s ]

  unfoldable pub handle_message_unix : Socket → ℤ → M Socket
  handle_message_unix s fd = do
    r ← checked env Check.receive (Call.recvfrom fd msg_buffer_size)
    t ← terminate_message s r
    delivered_unix t r.from.sun_path

  unfoldable pub send_each_unix : Socket → List ℕ → List Peer → M (Unit {0})
  send_each_unix s msg [] = pure tt
  send_each_unix s msg (p ∷ peers) =
      let rest = send_each_unix s msg peers in
      if env.empty p.path
      then rest
      else (checked env Check.send (Call.sendto_path s.fd msg s.family p.path) >> rest)

  unfoldable pub send_socket_unix : Socket → List ℕ → M (Unit {0})
  unfolding send_each_unix
  send_socket_unix s msg = send_each_unix s msg (take s.peer_count s.peers)
