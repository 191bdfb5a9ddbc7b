-- ===== src/Dispatch.antt =====
-- Socket.c: a socket of any protocol, from creation to clean-up, and the callbacks of its tasks.
pub mod Table
pub mod Quiet
pub mod Stream
pub mod Scheduled
pub mod Calls
pub mod Safe
pub mod Directory
pub mod CleanUp
pub mod Relay
use sctp_sandbox_c.Base.{
  ℕ, Bool, true, false, List, [], ◌∷◌, ℤ, pos, is_nonzero, ◌==◌, ◌||◌, take, replicate,
  if◌then◌else◌,
}
use sctp_sandbox_c.Errors.{Check}
use sctp_sandbox_c.Protocol.{
  NetworkProtocol, sctp, tcp, udp, udp_lite, dccp, unix, unix_forked, is_udp, af_unspec, af_inet,
  af_inet6, type_from_network_protocol, protocol_from_network_protocol,
}
use sctp_sandbox_c.Os.{Env, Call, Task, IpSocket, M, pure, ◌>>=◌, ◌>>◌, invoke, checked}
use sctp_sandbox_c.IpSocket.{IpSockets, listed, first_socket}
use sctp_sandbox_c.FdSet.{FdSet, set_fd, select_fd_set}
use sctp_sandbox_c.Bind.{configure_socket, bind_socket}
use sctp_sandbox_c.Peers.{Peer, Socket, peers_max_count, no_peer, no_forked, close_fd, quit_msg}
use sctp_sandbox_c.Tcp.{connect_socket_tcp, handle_message_tcp, send_socket_tcp}
use sctp_sandbox_c.Dccp.{handle_message_dccp, send_socket_dccp}
use sctp_sandbox_c.Udp.{
  connect_socket_udp, handle_message_udp, send_socket_udp, ping, handle_comm_lost_udp,
}
use sctp_sandbox_c.UnixSocket.{connect_socket_unix, handle_message_unix, send_socket_unix}
use sctp_sandbox_c.Sctp.{connect_socket_sctp, handle_message_sctp, send_socket_sctp}
use sctp_sandbox_c.Forked.{
  is_child, handle_message_unix_forked, receive_unix_forked, send_socket_unix_forked,
  clean_up_message_queues, clean_up_semaphores, clean_up_shared_memory, clean_up_globals,
}
use sctp_sandbox_c.Forked.Setup.{init_forked_socket, sigchld}

-- IPv6 if one of the local addresses is.
unfoldable pub choose_socket_family : List IpSocket → ℕ
choose_socket_family [] = af_inet
choose_socket_family (s ∷ rest) =
    let other = choose_socket_family rest in if s.family == af_inet6 then af_inet6 else other

is_unix_datagram : NetworkProtocol → Bool
is_unix_datagram unix = true
is_unix_datagram _ = false

is_dccp : NetworkProtocol → Bool
is_dccp dccp = true
is_dccp _ = false

-- The zeroed struct with the fields that are set first.
unfoldable pub initial_socket : IpSockets → NetworkProtocol → ℕ → Socket
initial_socket locals protocol family = record {
  fd = pos 0;
  family = if family == af_unspec then choose_socket_family (listed locals) else family;
  protocol = protocol;
  local = record (first_socket locals) { port = 0 };
  msg_buffer = [];
  peers = replicate peers_max_count no_peer;
  peer_count = 0;
  fd_set = record { fds = []; fd_max = 0; selected_fds = [] };
  forked = no_forked;
}

set_each : FdSet → List Peer → M FdSet
set_each f [] = pure f
set_each f (p ∷ peers) =
    let more = λ (g : FdSet). set_each g peers in
    if is_nonzero p.fd then (set_fd f p.fd >>= more) else more f

-- The descriptors to wait for: the socket's, and except on UDP those of the peers.
unfoldable pub gather_fds : Socket → M FdSet
unfolding set_each
gather_fds s = do
  f ← set_fd (record s.fd_set { fds = []; fd_max = 0 }) s.fd
  if is_udp s.protocol then pure f else set_each f (take s.peer_count s.peers)

module _ (env : Env) where
  open_socket : Socket → IpSockets → M Socket
  open_socket s locals = do
    r ← checked env Check.socket (
        Call.socket s.family (type_from_network_protocol s.protocol)
          (protocol_from_network_protocol s.protocol))
    let t : Socket = record s { fd = r.result }
    configure_socket env t t.fd
    bind_socket env t t.fd locals
    pure t

  prepare_socket : NetworkProtocol → Socket → IpSockets → M Socket
  unfolding open_socket
  prepare_socket unix_forked s locals = init_forked_socket env s
  prepare_socket _ s locals = open_socket s locals

  unfoldable pub create_socket : IpSockets → NetworkProtocol → ℕ → M Socket
  unfolding initial_socket prepare_socket
  create_socket locals protocol family =
      prepare_socket protocol (initial_socket locals protocol family) locals

  connect_by_protocol : NetworkProtocol → Socket → IpSockets → M Socket
  connect_by_protocol tcp s remotes = connect_socket_tcp env s remotes
  connect_by_protocol dccp s remotes = connect_socket_tcp env s remotes
  connect_by_protocol udp s remotes = connect_socket_udp env s remotes
  connect_by_protocol udp_lite s remotes = connect_socket_udp env s remotes
  connect_by_protocol unix s remotes = connect_socket_unix s remotes
  connect_by_protocol unix_forked s remotes = pure s
  connect_by_protocol sctp s remotes = connect_socket_sctp env s remotes

  unfoldable pub connect_socket : Socket → IpSockets → M Socket
  unfolding connect_by_protocol
  connect_socket s remotes = connect_by_protocol s.protocol s remotes

  -- The callback of the task that reestablishes a connection.
  unfoldable pub reestablish : Socket → IpSocket → M Socket
  unfolding connect_socket
  reestablish s remote = connect_socket s (record { sockets = remote ∷ []; count = 1 })

  -- What the scheduler calls for a task.
  unfoldable pub run_task : Socket → Task → M Socket
  unfolding reestablish
  run_task s (Task.reestablish remote) = reestablish s remote
  run_task s (Task.ping remote) = ping env s remote >> pure s
  run_task s (Task.comm_lost remote) = handle_comm_lost_udp env s remote

  unfoldable pub select_fds : Socket → M Socket
  unfolding gather_fds
  select_fds s = do f ← gather_fds s; g ← select_fd_set env f 10; pure (record s { fd_set = g })

  pub handle_by_protocol : NetworkProtocol → Socket → ℤ → M Socket
  handle_by_protocol tcp s fd = handle_message_tcp env s fd
  handle_by_protocol udp s fd = handle_message_udp env s fd
  handle_by_protocol udp_lite s fd = handle_message_udp env s fd
  handle_by_protocol dccp s fd = handle_message_dccp env s fd
  handle_by_protocol unix s fd = handle_message_unix env s fd
  handle_by_protocol unix_forked s fd = handle_message_unix_forked env s fd
  handle_by_protocol sctp s fd = handle_message_sctp env s fd

  unfoldable pub handle_message : Socket → ℤ → M Socket
  unfolding handle_by_protocol
  handle_message s fd = handle_by_protocol s.protocol s fd

  unfoldable pub handle_each : Socket → List ℕ → M Socket
  unfolding handle_message
  handle_each s [] = pure s
  handle_each s (fd ∷ fds) =
      let more = λ (t : Socket). handle_each t fds in handle_message s (pos fd) >>= more

  pub receive_rest : NetworkProtocol → Socket → M Socket
  receive_rest unix_forked s = receive_unix_forked env s
  receive_rest _ s = pure s

  unfoldable pub receive_socket : Socket → M Socket
  unfolding select_fds handle_each receive_rest
  receive_socket s = do
    t ← select_fds s
    u ← handle_each t t.fd_set.selected_fds
    receive_rest u.protocol u

  send_by_protocol : NetworkProtocol → Socket → List ℕ → M (Unit {0})
  send_by_protocol tcp s msg = send_socket_tcp env s msg
  send_by_protocol udp s msg = send_socket_udp env s msg
  send_by_protocol udp_lite s msg = send_socket_udp env s msg
  send_by_protocol dccp s msg = send_socket_dccp env s msg
  send_by_protocol unix s msg = send_socket_unix env s msg
  send_by_protocol unix_forked s msg = send_socket_unix_forked env s msg
  send_by_protocol sctp s msg = send_socket_sctp env s msg

  unfoldable pub send_socket : Socket → List ℕ → M (Unit {0})
  unfolding send_by_protocol
  send_socket s msg = send_by_protocol s.protocol s msg

  close_each : List Peer → M (Unit {0})
  close_each [] = pure tt
  close_each (p ∷ peers) =
      let rest = close_each peers in if is_nonzero p.fd then (close_fd env p.fd >> rest) else rest

  notify_parent : Socket → M (Unit {0})
  notify_parent s =
      if is_child s then (invoke env (Call.kill s.forked.parent sigchld) >> pure tt) else pure tt

  unfoldable pub clean_up_socket : Socket → M (Unit {0})
  unfolding send_socket close_each notify_parent is_dccp is_unix_datagram
  clean_up_socket s = do
    if is_dccp s.protocol || is_udp s.protocol || is_unix_datagram s.protocol
        then send_socket s quit_msg
        else pure tt
    close_each (take s.peer_count s.peers)
    close_fd env s.fd
    close_fd env s.forked.pipe
    close_fd env s.forked.named_pipe
    close_fd env s.forked.shm
    clean_up_message_queues env s
    clean_up_semaphores env s
    clean_up_shared_memory env s
    notify_parent s
    clean_up_globals env
