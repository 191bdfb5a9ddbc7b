-- ===== src/Tcp.antt =====
-- SocketTcp.c: one descriptor for each connection.
pub mod Table
pub mod Laws
pub mod Overflow
pub mod Connections
pub mod Kept
pub mod Scheduled
use sctp_sandbox_c.Base.{
  ℕ, true, false, List, [], ◌∷◌, ℤ, is_nonzero, ◌==ℤ◌, ◌==◌, leb, take, if◌then◌else◌,
}
use sctp_sandbox_c.Errors.{Check, failed}
use sctp_sandbox_c.Protocol.{type_from_network_protocol, protocol_from_network_protocol}
use sctp_sandbox_c.Os.{Env, Call, Reply, IpSocket, M, pure, ◌>>=◌, ◌>>◌, invoke, check, checked}
use sctp_sandbox_c.IpSocket.{IpSockets, listed, sockaddr_storage_to_ip_socket}
use sctp_sandbox_c.Bind.{configure_socket, bind_socket, connect_single_socket, log_paddrs_tcp}
use sctp_sandbox_c.Peers.{
  msg_buffer_size, Peer, Socket, peers_max_count, find_peer_by_fd, peer_through, add_peer,
  remove_peer, schedule_reestablishment, terminate_message, first_byte,
}

module _ (env : Env) where
  unfoldable pub create_connect_socket : Socket → M ℤ
  create_connect_socket s = do
    r ← invoke env (
        Call.socket s.family (type_from_network_protocol s.protocol)
          (protocol_from_network_protocol s.protocol))
    check env Check.socket r.result r.errno
    configure_socket env s r.result
    bind_socket env s r.result (record { sockets = s.local ∷ []; count = 1 })
    pure r.result

  connected_peer : ℤ → IpSocket → Peer → Peer
  connected_peer fd remote p = record p { fd = fd; remote = remote; should_reestablish = true }

  -- One remote; the loop ends early when the table is full.
  connect_one : Socket → IpSocket → M Socket
  unfolding create_connect_socket connected_peer
  connect_one s remote = do
    fd ← create_connect_socket s
    connect_single_socket env fd remote
    add_peer s (connected_peer fd remote)

  unfoldable pub connect_each_tcp : Socket → List IpSocket → M Socket
  unfolding connect_one
  connect_each_tcp s [] = pure s
  connect_each_tcp s (remote ∷ rest) =
      let more = λ (t : Socket). connect_each_tcp t rest in
      if leb peers_max_count s.peer_count then pure s else (connect_one s remote >>= more)

  unfoldable pub connect_socket_tcp : Socket → IpSockets → M Socket
  unfolding connect_each_tcp
  connect_socket_tcp s remotes = connect_each_tcp s (listed remotes)

  accepted_peer : ℤ → IpSocket → Peer → Peer
  accepted_peer fd remote p = record p { fd = fd; remote = remote; should_reestablish = false }

  unfoldable pub handle_comm_up_tcp : Socket → ℤ → M Socket
  unfolding accepted_peer
  handle_comm_up_tcp s fd = if leb peers_max_count s.peer_count then pure s else (do
    r ← invoke env (Call.accept fd)
    check env Check.accept r.result r.errno
    remote ← sockaddr_storage_to_ip_socket env r.from
    add_peer s (accepted_peer r.result remote))

  unfoldable pub handle_comm_lost_tcp : Socket → ℤ → M Socket
  handle_comm_lost_tcp s fd = do
    let peer = find_peer_by_fd s fd
    ip ← peer_through s peer
    let p : Peer = ip.1
    if p.should_reestablish then schedule_reestablishment env p.remote else pure tt
    remove_peer env s peer

  unfoldable pub handle_graceful_shutdown_tcp : Socket → ℤ → M Socket
  handle_graceful_shutdown_tcp s fd = do
    let peer = find_peer_by_fd s fd
    peer_through s peer
    remove_peer env s peer

  -- What a message on a connection does, once recv has answered.
  unfoldable pub received_tcp : Socket → ℤ → Reply → M Socket
  unfolding handle_comm_lost_tcp handle_graceful_shutdown_tcp
  received_tcp s fd r =
      if failed Check.receive r.result r.errno then handle_comm_lost_tcp s fd else (do
        t ← terminate_message s r
        if first_byte t.msg_buffer == 0
            then handle_graceful_shutdown_tcp t fd
            else (log_paddrs_tcp env fd >> pure t))

  unfoldable pub handle_message_tcp : Socket → ℤ → M Socket
  unfolding handle_comm_up_tcp received_tcp
  handle_message_tcp s fd =
      if fd ==ℤ s.fd
      then handle_comm_up_tcp s fd
      else (invoke env (Call.recv fd msg_buffer_size) >>= received_tcp s fd)

  -- To each of the peers below the count that has a descriptor.
  unfoldable pub send_each_tcp : List ℕ → List Peer → M (Unit {0})
  send_each_tcp msg [] = pure tt
  send_each_tcp msg (p ∷ peers) =
      let rest = send_each_tcp msg peers in
      if is_nonzero p.fd then (checked env Check.send (Call.send p.fd msg) >> rest) else rest

  unfoldable pub send_socket_tcp : Socket → List ℕ → M (Unit {0})
  unfolding send_each_tcp
  send_socket_tcp s msg = send_each_tcp msg (take s.peer_count s.peers)
