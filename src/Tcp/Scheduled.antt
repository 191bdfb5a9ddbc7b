-- ===== src/Tcp/Scheduled.antt =====
-- SocketTcp.c, SocketDccp.c: what connections hand to the scheduler.
use sctp_sandbox_c.Base.{ℕ, ℤ, List, [], ◌∷◌, leb, is_nonzero, take}
use sctp_sandbox_c.Os.{Env, IpSocket, Reply}
use sctp_sandbox_c.Os.Scheduled.{Streams}
use sctp_sandbox_c.Os.Calls.{Calls-pure, Calls-if, Calls-bind, Calls-invoke, Calls-checked, calls}
use sctp_sandbox_c.Bind.Scheduled.{
  sockaddr_storage_to_ip_socket-Streams, log_paddrs_tcp-Streams, configure_socket-Streams,
  bind_socket-Streams, connect_single_socket-Streams,
}
use sctp_sandbox_c.IpSocket.{IpSockets}
use sctp_sandbox_c.Peers.{Peer, Socket, peers_max_count}
use sctp_sandbox_c.Peers.Scheduled.{
  peer_through-Streams, add_peer-Streams, terminate_message-Streams, remove_peer-Streams,
  schedule_reestablishment-Streams,
}
use sctp_sandbox_c.Tcp.{
  create_connect_socket, connect_one, connect_each_tcp, connect_socket_tcp, handle_comm_up_tcp,
  handle_comm_lost_tcp, handle_graceful_shutdown_tcp, received_tcp, handle_message_tcp,
  send_each_tcp, send_socket_tcp,
}
use sctp_sandbox_c.Dccp.{received_dccp, handle_message_dccp, send_each_dccp, send_socket_dccp}

module _ (env : Env) where
  create_connect_socket-Streams : (s : Socket) → Streams (create_connect_socket env s)
  unfolding create_connect_socket
  create_connect_socket-Streams s =
      search (calls, configure_socket-Streams, bind_socket-Streams) depth 8

  connect_one-Streams : (s : Socket) (remote : IpSocket) → Streams (connect_one env s remote)
  unfolding connect_one
  connect_one-Streams s remote =
      search (calls, create_connect_socket-Streams, connect_single_socket-Streams, add_peer-Streams)

  connect_each_tcp-Streams :
      (s : Socket) (remotes : List IpSocket) → Streams (connect_each_tcp env s remotes)
  unfolding connect_each_tcp
  connect_each_tcp-Streams s [] = search calls
  connect_each_tcp-Streams s (remote ∷ rest) =
      Calls-if (leb peers_max_count s.peer_count) _ _ (Calls-pure s)
        (Calls-bind _ _ (connect_one-Streams s remote) λ t. connect_each_tcp-Streams t rest)

  pub connect_socket_tcp-Streams :
      (s : Socket) (remotes : IpSockets) → Streams (connect_socket_tcp env s remotes)
  unfolding connect_socket_tcp
  connect_socket_tcp-Streams s remotes = connect_each_tcp-Streams s _

  handle_comm_up_tcp-Streams : (s : Socket) (fd : ℤ) → Streams (handle_comm_up_tcp env s fd)
  unfolding handle_comm_up_tcp
  handle_comm_up_tcp-Streams s fd =
      search (calls, sockaddr_storage_to_ip_socket-Streams, add_peer-Streams) depth 8

  handle_comm_lost_tcp-Streams : (s : Socket) (fd : ℤ) → Streams (handle_comm_lost_tcp env s fd)
  unfolding handle_comm_lost_tcp
  handle_comm_lost_tcp-Streams s fd =
      search (calls, peer_through-Streams, schedule_reestablishment-Streams, remove_peer-Streams)

  handle_graceful_shutdown_tcp-Streams :
      (s : Socket) (fd : ℤ) → Streams (handle_graceful_shutdown_tcp env s fd)
  unfolding handle_graceful_shutdown_tcp
  handle_graceful_shutdown_tcp-Streams s fd =
      search (calls, peer_through-Streams, remove_peer-Streams)

  received_tcp-Streams : (s : Socket) (fd : ℤ) (r : Reply) → Streams (received_tcp env s fd r)
  unfolding received_tcp
  received_tcp-Streams s fd r =
      search
        (
          calls, terminate_message-Streams, handle_comm_lost_tcp-Streams,
          handle_graceful_shutdown_tcp-Streams, log_paddrs_tcp-Streams,
        )
        depth 8

  pub handle_message_tcp-Streams : (s : Socket) (fd : ℤ) → Streams (handle_message_tcp env s fd)
  unfolding handle_message_tcp
  handle_message_tcp-Streams s fd = search (calls, handle_comm_up_tcp-Streams, received_tcp-Streams)

  received_dccp-Streams : (s : Socket) (fd : ℤ) (r : Reply) → Streams (received_dccp env s fd r)
  unfolding received_dccp
  received_dccp-Streams s fd r =
      search
        (
          calls, terminate_message-Streams, handle_comm_lost_tcp-Streams,
          handle_graceful_shutdown_tcp-Streams, log_paddrs_tcp-Streams,
        )
        depth 10

  pub handle_message_dccp-Streams : (s : Socket) (fd : ℤ) → Streams (handle_message_dccp env s fd)
  unfolding handle_message_dccp
  handle_message_dccp-Streams s fd =
      search (calls, handle_comm_up_tcp-Streams, received_dccp-Streams)

  send_each_tcp-Streams : (msg : List ℕ) (peers : List Peer) → Streams (send_each_tcp env msg peers)
  unfolding send_each_tcp
  send_each_tcp-Streams msg [] = search calls
  send_each_tcp-Streams msg (p ∷ peers) =
      let rest = send_each_tcp-Streams msg peers in
      Calls-if (is_nonzero p.fd) _ _ (Calls-bind _ _ (Calls-checked env _ _ tt) λ _. rest) rest

  pub send_socket_tcp-Streams : (s : Socket) (msg : List ℕ) → Streams (send_socket_tcp env s msg)
  unfolding send_socket_tcp
  send_socket_tcp-Streams s msg = send_each_tcp-Streams msg (take s.peer_count s.peers)

  send_each_dccp-Streams :
      (msg : List ℕ) (peers : List Peer) → Streams (send_each_dccp env msg peers)
  unfolding send_each_dccp
  send_each_dccp-Streams msg [] = search calls
  send_each_dccp-Streams msg (p ∷ peers) =
      let rest = send_each_dccp-Streams msg peers in
      Calls-if (is_nonzero p.fd) _ _ (Calls-bind _ _ (Calls-invoke env _ tt) λ _. rest) rest

  pub send_socket_dccp-Streams : (s : Socket) (msg : List ℕ) → Streams (send_socket_dccp env s msg)
  unfolding send_socket_dccp
  send_socket_dccp-Streams s msg = send_each_dccp-Streams msg (take s.peer_count s.peers)
