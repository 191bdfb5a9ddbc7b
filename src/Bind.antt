-- ===== src/Bind.antt =====
-- Making a socket ready: configureSocket, bindSocket and what they call, in Socket.c, SocketSctp.c,
-- SocketTcp.c, SocketUnix.c and SctpGetAddrs.c; connectSingleSocket and connectMultihomedSocket.
pub mod Quiet
pub mod Packed
pub mod Scheduled
use sctp_sandbox_c.Base.{
  zero, suc, drop, pos_part, ℕ, Bool, not, List, [], ◌∷◌, ℤ, ◌==◌, if◌then◌else◌,
}
use sctp_sandbox_c.Errors.{Check}
use sctp_sandbox_c.Protocol.{
  NetworkProtocol, sctp, tcp, udp, udp_lite, dccp, unix, unix_forked, af_unix, sock_dgram,
  type_from_network_protocol,
}
use sctp_sandbox_c.Os.{Env, Call, IpSocket, Sockaddr, M, pure, ◌>>=◌, ◌>>◌, checked}
use sctp_sandbox_c.IpSocket.{
  IpSockets, listed, first_socket, sockaddr_storage_to_ip_socket, ip_socket_to_sockaddr_storage,
  ip_sockets_to_sockaddrs, read_sockaddr, sizeof_sockaddr,
}
use sctp_sandbox_c.Configuration
use sctp_sandbox_c.Configuration.{all_associations}
use sctp_sandbox_c.Peers.{Socket}

unfoldable pub should_listen : ℕ → Bool
should_listen type = not (type == sock_dgram)

module _ (env : Env) where
  -- Each address that the kernel listed is turned into text for the log.
  unfoldable pub log_each : (count : ℕ) → List ℕ → M (List IpSocket)
  unfolding read_sockaddr sizeof_sockaddr
  log_each zero saddrs = pure []
  log_each (suc count) saddrs = do
    ip_socket ← sockaddr_storage_to_ip_socket env (read_sockaddr saddrs)
    others ← log_each count (drop (sizeof_sockaddr ip_socket) saddrs)
    pure (ip_socket ∷ others)

  unfoldable pub log_laddrs : ℤ → M (Unit {0})
  unfolding log_each
  log_laddrs fd = do
    r ← checked env Check.getaddrs (Call.sctp_getladdrs fd)
    log_each (pos_part r.result) r.addresses
    pure tt

  unfoldable pub log_paddrs : ℤ → M (Unit {0})
  unfolding log_each
  log_paddrs fd = do
    r ← checked env Check.getaddrs (Call.sctp_getpaddrs fd)
    log_each (pos_part r.result) r.addresses
    pure tt

  unfoldable pub log_laddrs_tcp : ℤ → M (Unit {0})
  log_laddrs_tcp fd = do
    r ← checked env Check.getsockname (Call.getsockname fd)
    sockaddr_storage_to_ip_socket env r.from
    pure tt

  -- The result of getpeername is checked as one of getsockname.
  unfoldable pub log_paddrs_tcp : ℤ → M (Unit {0})
  log_paddrs_tcp fd = do
    r ← checked env Check.getsockname (Call.getpeername fd)
    sockaddr_storage_to_ip_socket env r.from
    pure tt

  unfoldable pub configure_socket_sctp : Socket → ℤ → M (Unit {0})
  configure_socket_sctp s fd = do
    Configuration.configure_no_delay env fd
    Configuration.configure_receiving_events env fd
    Configuration.configure_init_params env fd 5 5000
    Configuration.configure_rto env fd 1000 1000 5000 all_associations
    Configuration.configure_sack env fd 2 200 all_associations
    Configuration.configure_max_retrans env fd 5 all_associations
    Configuration.configure_ipv4_address_mapping env fd
    Configuration.configure_peer_address_params env fd 10000 3 1500 s.family all_associations
    Configuration.configure_max_seg env fd 1500 all_associations

  abbrev configure_ip : Socket → ℤ → M (Unit {0})
  configure_ip s fd = do
    Configuration.configure_dscp env fd 63 s.family
    Configuration.configure_ttl env fd 255

  unfoldable pub configure_protocol : NetworkProtocol → Socket → ℤ → M (Unit {0})
  unfolding configure_socket_sctp
  configure_protocol sctp s fd = configure_socket_sctp s fd
  configure_protocol tcp s fd = Configuration.configure_keep_alive env fd 1 1 3
  configure_protocol _ s fd = pure tt

  unfoldable pub configure_socket : Socket → ℤ → M (Unit {0})
  unfolding configure_protocol
  configure_socket s fd = do
    Configuration.configure_reuse_addr env fd
    Configuration.configure_non_blocking_mode env fd
    if s.family == af_unix then pure tt else configure_ip s fd
    configure_protocol s.protocol s fd

  unfoldable pub bind_socket_tcp : ℤ → IpSocket → M (Unit {0})
  unfolding log_laddrs_tcp
  bind_socket_tcp fd local = do
    a ← ip_socket_to_sockaddr_storage env local
    checked env Check.bind (Call.bind fd a)
    log_laddrs_tcp fd

  unfoldable pub bind_socket_unix : ℤ → M (Unit {0})
  bind_socket_unix fd = do
    checked env Check.bind (Call.bind_unnamed fd)
    checked env Check.getsockname (Call.getsockname fd)
    pure tt

  unfoldable pub bind_socket_sctp : Socket → IpSockets → M (Unit {0})
  unfolding log_laddrs
  bind_socket_sctp s locals = do
    addrs ← ip_sockets_to_sockaddrs env (listed locals)
    checked env Check.bind (Call.sctp_bindx s.fd addrs locals.count)
    log_laddrs s.fd

  unfoldable pub bind_by_protocol : NetworkProtocol → Socket → ℤ → IpSockets → M (Unit {0})
  unfolding bind_socket_tcp bind_socket_unix bind_socket_sctp
  bind_by_protocol tcp s fd locals = bind_socket_tcp fd (first_socket locals)
  bind_by_protocol udp s fd locals = bind_socket_tcp fd (first_socket locals)
  bind_by_protocol udp_lite s fd locals = bind_socket_tcp fd (first_socket locals)
  bind_by_protocol dccp s fd locals = bind_socket_tcp fd (first_socket locals)
  bind_by_protocol unix s fd locals = bind_socket_unix fd
  bind_by_protocol unix_forked s fd locals = pure tt
  bind_by_protocol sctp s fd locals = bind_socket_sctp s locals

  unfoldable pub bind_socket : Socket → ℤ → IpSockets → M (Unit {0})
  unfolding bind_by_protocol
  bind_socket s fd locals = bind_by_protocol s.protocol s fd locals

  unfoldable pub listen_socket : Socket → ℕ → M (Unit {0})
  unfolding should_listen
  listen_socket s backlog_count =
      if should_listen (type_from_network_protocol s.protocol)
      then (checked env Check.listen (Call.listen s.fd backlog_count) >> pure tt)
      else pure tt

  unfoldable pub connect_single_socket : ℤ → IpSocket → M (Unit {0})
  connect_single_socket fd remote = do
    a ← ip_socket_to_sockaddr_storage env remote
    checked env Check.connect (Call.connect fd a)
    pure tt

  -- The address handed to sctp_connectx is that of the local pointer, not the array's: only the
  -- count of addresses says anything about them.
  unfoldable pub connect_multihomed_socket : Socket → IpSockets → M (Unit {0})
  connect_multihomed_socket s remotes = if remotes.count == 0 then pure tt else (do
    ip_sockets_to_sockaddrs env (listed remotes)
    checked env Check.connect (Call.sctp_connectx s.fd remotes.count)
    pure tt)
