-- ===== src/Udp.antt =====
-- SocketUdp.c: peers told apart by their address, kept alive by pings, lost by a timer.
pub mod Table
pub mod Calls
pub mod NotNull
pub mod Laws
use sctp_sandbox_c.Base.{
  ℕ, Bool, List, [], ◌∷◌, Option, none, some, ◌==◌, ◌+◌, ◌*◌, ◌&&◌, ltb, leb, take, ℤ,
  if◌then◌else◌,
}
use sctp_sandbox_c.Errors.{Check}
use sctp_sandbox_c.Os.{Env, Call, Task, IpSocket, M, pure, ◌>>=◌, ◌>>◌, invoke, checked}
use sctp_sandbox_c.IpSocket.{
  IpSockets, listed, sockaddr_storage_to_ip_socket, ip_socket_to_sockaddr_storage,
}
use sctp_sandbox_c.Peers.{
  msg_buffer_size, Peer, Socket, peers_max_count, find_peer, peer_at, add_peer, remove_peer,
  schedule_reestablishment, terminate_message, c_string, quit_msg,
}

abbrev pub keep_alive_period_s : ℕ
keep_alive_period_s = 1

abbrev pub keep_alive_probes : ℕ
keep_alive_probes = 3

-- "ka"
abbrev pub keep_alive_msg : List ℕ
keep_alive_msg = b'k' ∷ b'a' ∷ []

-- "kack"
abbrev pub keep_alive_ack_msg : List ℕ
keep_alive_ack_msg = b'k' ∷ b'a' ∷ b'c' ∷ b'k' ∷ []

module _ (env : Env) where
  unfoldable pub send_socket_udp_to_remote : Socket → List ℕ → IpSocket → M (Unit {0})
  send_socket_udp_to_remote s msg remote = do
    a ← ip_socket_to_sockaddr_storage env remote
    checked env Check.send (Call.sendto s.fd msg a)
    pure tt

  -- The callback of the ping task.
  unfoldable pub ping : Socket → IpSocket → M (Unit {0})
  unfolding send_socket_udp_to_remote
  ping s remote = send_socket_udp_to_remote s keep_alive_msg remote

  unfoldable pub schedule_ping : IpSocket → M (Option ℕ)
  schedule_ping remote = do
    r ← invoke env (Call.schedule_task (Task.ping remote) keep_alive_period_s keep_alive_probes)
    pure r.task

  abbrev pub has_remote : IpSocket → Peer → Bool
  has_remote remote p = env.equals p.remote.addr remote.addr && (p.remote.port == remote.port)

  unfoldable pub find_peer_by_remote : Socket → IpSocket → Option ℕ
  unfolding find_peer
  find_peer_by_remote s remote = find_peer (has_remote remote) s.peer_count s.peers

  unfoldable pub handle_comm_lost_udp : Socket → IpSocket → M Socket
  handle_comm_lost_udp s remote = do
    schedule_reestablishment env remote
    remove_peer env s (find_peer_by_remote s remote)

  unfoldable pub schedule_comm_lost : IpSocket → M (Option ℕ)
  schedule_comm_lost remote = do
    r ← invoke env (
        Call.schedule_task (Task.comm_lost remote) (keep_alive_period_s * (keep_alive_probes + 1))
          1)
    pure r.task

  met_peer : IpSocket → Option ℕ → Option ℕ → Peer → Peer
  met_peer remote ping_task comm_lost_task p = record p {
    remote = remote;
    ping_task = ping_task;
    comm_lost_task = comm_lost_task;
  }

  unfoldable pub handle_comm_up_udp : Socket → IpSocket → M Socket
  unfolding schedule_ping schedule_comm_lost met_peer
  handle_comm_up_udp s remote = if leb peers_max_count s.peer_count then pure s else (do
    ping_task ← schedule_ping remote
    comm_lost_task ← schedule_comm_lost remote
    add_peer s (met_peer remote ping_task comm_lost_task))

  unfoldable pub handle_graceful_shutdown_udp : Socket → IpSocket → M Socket
  handle_graceful_shutdown_udp s remote = remove_peer env s (find_peer_by_remote s remote)

  unfoldable pub reset_tasks : Peer → M (Unit {0})
  reset_tasks p = do
    invoke env (Call.reset_task p.ping_task)
    invoke env (Call.reset_task p.comm_lost_task)
    pure tt

  unfoldable pub connect_each_udp : Socket → List IpSocket → M Socket
  connect_each_udp s [] = pure s
  connect_each_udp s (remote ∷ rest) =
      let more = λ (t : Socket). connect_each_udp t rest in handle_comm_up_udp s remote >>= more

  unfoldable pub connect_socket_udp : Socket → IpSockets → M Socket
  unfolding connect_each_udp
  connect_socket_udp s remotes = connect_each_udp s (listed remotes)

  -- The last step of a message: a known peer's timers start again, an unknown one is added.
  unfoldable pub refresh_peer : Socket → IpSocket → M Socket
  refresh_peer s remote = elim (find_peer_by_remote s remote) [
    | none ↦ handle_comm_up_udp s remote
    | some i ↦ peer_at s i >>= λ p. reset_tasks p >> pure s
  ]

  -- What a message does, once it is in the buffer and its sender is known.
  unfoldable pub delivered_udp : Socket → IpSocket → M Socket
  unfolding refresh_peer
  delivered_udp s remote =
      if env.equals (c_string s.msg_buffer) quit_msg
      then handle_graceful_shutdown_udp s remote
      else (do
        if env.equals (c_string s.msg_buffer) keep_alive_msg
            then send_socket_udp_to_remote s keep_alive_ack_msg remote
            else pure tt
        refresh_peer s remote)

  unfoldable pub handle_message_udp : Socket → ℤ → M Socket
  handle_message_udp s fd = do
    r ← checked env Check.receive (Call.recvfrom fd msg_buffer_size)
    t ← terminate_message s r
    remote ← sockaddr_storage_to_ip_socket env r.from
    delivered_udp t remote

  unfoldable pub send_each_udp : Socket → List ℕ → List Peer → M (Unit {0})
  send_each_udp s msg [] = pure tt
  send_each_udp s msg (p ∷ peers) =
      let rest = send_each_udp s msg peers in
      if ltb 0 p.remote.port then (send_socket_udp_to_remote s msg p.remote >> rest) else rest

  unfoldable pub send_socket_udp : Socket → List ℕ → M (Unit {0})
  unfolding send_each_udp
  send_socket_udp s msg = send_each_udp s msg (take s.peer_count s.peers)
