-- ===== src/Udp/Calls.antt =====
-- SocketUdp.c: the calls that datagrams make. A peer that is met is pinged, and lost by a timer.
use sctp_sandbox_c.Base.{ℕ, ℤ, List, [], ◌∷◌, Option, none, some, leb, ltb, take}
use sctp_sandbox_c.Os.{Env, IpSocket, M, pure, ◌>>=◌, ◌>>◌}
use sctp_sandbox_c.Os.Calls.{
  Calls-pure, Calls-bind, Calls-if, Calls-checked, Calls-invoke, calls, Grows, Calls-Grows,
}
use sctp_sandbox_c.Os.Scheduled.{Streams}
use sctp_sandbox_c.IpSocket.{IpSockets, listed}
use sctp_sandbox_c.Bind.Scheduled.{
  ip_socket_to_sockaddr_storage-Streams, sockaddr_storage_to_ip_socket-Streams,
}
use sctp_sandbox_c.Peers.{Peer, Socket, peer_at, peers_max_count, c_string, quit_msg}
use sctp_sandbox_c.Peers.Scheduled.{
  peer_at-Streams, add_peer-Streams, terminate_message-Streams, remove_peer-Streams,
  schedule_reestablishment-Streams,
}
use sctp_sandbox_c.Udp.{
  send_socket_udp_to_remote, ping, schedule_ping, find_peer_by_remote, handle_comm_lost_udp,
  schedule_comm_lost, handle_comm_up_udp, handle_graceful_shutdown_udp, reset_tasks,
  connect_each_udp, connect_socket_udp, refresh_peer, delivered_udp, handle_message_udp,
  send_each_udp, send_socket_udp, keep_alive_msg, keep_alive_ack_msg,
}

module _ (env : Env) where
  send_socket_udp_to_remote-Streams :
      (s : Socket) (msg : List ℕ) (remote : IpSocket)
      → Streams (send_socket_udp_to_remote env s msg remote)
  unfolding send_socket_udp_to_remote
  send_socket_udp_to_remote-Streams s msg remote =
      search (calls, ip_socket_to_sockaddr_storage-Streams)

  pub ping-Streams : (s : Socket) (remote : IpSocket) → Streams (ping env s remote)
  unfolding ping
  ping-Streams s remote = send_socket_udp_to_remote-Streams s keep_alive_msg remote

  pub handle_comm_lost_udp-Streams :
      (s : Socket) (remote : IpSocket) → Streams (handle_comm_lost_udp env s remote)
  unfolding handle_comm_lost_udp
  handle_comm_lost_udp-Streams s remote =
      search (calls, schedule_reestablishment-Streams, remove_peer-Streams)

  handle_comm_up_udp-Grows :
      (s : Socket) (remote : IpSocket) → Grows (handle_comm_up_udp env s remote)
  unfolding handle_comm_up_udp schedule_ping schedule_comm_lost
  handle_comm_up_udp-Grows s remote =
      Calls-if (leb peers_max_count s.peer_count) _ _ (Calls-pure s) (
        Calls-bind _ _ (Calls-bind _ _ (Calls-invoke env _ tt) λ r. Calls-pure r.task) λ a.
          Calls-bind _ _ (Calls-bind _ _ (Calls-invoke env _ tt) λ r. Calls-pure r.task)
            λ b. Calls-Grows _ (add_peer-Streams s _))

  connect_each_udp-Grows :
      (s : Socket) (remotes : List IpSocket) → Grows (connect_each_udp env s remotes)
  unfolding connect_each_udp
  connect_each_udp-Grows s [] = Calls-pure s
  connect_each_udp-Grows s (remote ∷ rest) =
      Calls-bind _ _ (handle_comm_up_udp-Grows s remote) λ t. connect_each_udp-Grows t rest

  pub connect_socket_udp-Grows :
      (s : Socket) (remotes : IpSockets) → Grows (connect_socket_udp env s remotes)
  unfolding connect_socket_udp
  connect_socket_udp-Grows s remotes = connect_each_udp-Grows s (listed remotes)

  reset_tasks-Streams : (p : Peer) → Streams (reset_tasks env p)
  unfolding reset_tasks
  reset_tasks-Streams p = search calls

  refreshed-Grows :
      (s : Socket) (remote : IpSocket) (o : Option ℕ)
      → Grows (elim o as (λ _. M Socket) [
        | none ↦ handle_comm_up_udp env s remote
        | some i ↦ peer_at s i >>= λ p. reset_tasks env p >> pure s
      ])
  refreshed-Grows s remote none = handle_comm_up_udp-Grows s remote
  refreshed-Grows s remote (some i) = Calls-Grows _ (
      Calls-bind _ _ (peer_at-Streams s i)
        λ p. Calls-bind _ _ (reset_tasks-Streams p) λ _. Calls-pure s)

  delivered_udp-Grows : (s : Socket) (remote : IpSocket) → Grows (delivered_udp env s remote)
  unfolding delivered_udp handle_graceful_shutdown_udp refresh_peer
  delivered_udp-Grows s remote =
      Calls-if (env.equals (c_string s.msg_buffer) quit_msg) _ _
        (Calls-Grows _ (remove_peer-Streams env s (find_peer_by_remote env s remote)))
        (Calls-bind _ _
          (Calls-if (env.equals (c_string s.msg_buffer) keep_alive_msg) _ _
            (Calls-Grows _ (send_socket_udp_to_remote-Streams s keep_alive_ack_msg remote))
            (Calls-pure tt))
          λ _. refreshed-Grows s remote (find_peer_by_remote env s remote))

  pub handle_message_udp-Grows : (s : Socket) (fd : ℤ) → Grows (handle_message_udp env s fd)
  unfolding handle_message_udp
  handle_message_udp-Grows s fd = Calls-bind _ _ (Calls-checked env _ _ tt) λ r.
      Calls-bind _ _ (Calls-Grows _ (terminate_message-Streams s r)) λ t.
        Calls-bind _ _ (Calls-Grows _ (sockaddr_storage_to_ip_socket-Streams env r.from))
          λ remote. delivered_udp-Grows t remote

  send_each_udp-Streams :
      (s : Socket) (msg : List ℕ) (peers : List Peer) → Streams (send_each_udp env s msg peers)
  unfolding send_each_udp
  send_each_udp-Streams s msg [] = Calls-pure tt
  send_each_udp-Streams s msg (p ∷ peers) =
      let rest = send_each_udp-Streams s msg peers in
      Calls-if (ltb 0 p.remote.port) _ _
        (Calls-bind _ _ (send_socket_udp_to_remote-Streams s msg p.remote) λ _. rest) rest

  pub send_socket_udp-Streams : (s : Socket) (msg : List ℕ) → Streams (send_socket_udp env s msg)
  unfolding send_socket_udp
  send_socket_udp-Streams s msg = send_each_udp-Streams s msg (take s.peer_count s.peers)
