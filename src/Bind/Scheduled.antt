-- ===== src/Bind/Scheduled.antt =====
-- What configuring, binding, listening and connecting hand to the scheduler.
use sctp_sandbox_c.Base.{ℕ, zero, suc, ℤ, List, [], ◌∷◌, Option, none, some}
use sctp_sandbox_c.Protocol.{NetworkProtocol, sctp, tcp, udp, udp_lite, dccp, unix, unix_forked}
use sctp_sandbox_c.Os.{Env, SockOpt, IpSocket, Sockaddr}
use sctp_sandbox_c.Os.Scheduled.{Streams}
use sctp_sandbox_c.Os.Calls.{Calls-pure, calls}
use sctp_sandbox_c.IpSocket.{
  IpSockets, ntop_text, sockaddr_storage_to_ip_socket, ip_socket_to_sockaddr_storage,
  ip_sockets_to_sockaddrs,
}
use sctp_sandbox_c.Configuration.{
  setsockopt, configure_no_delay, configure_receiving_events, configure_init_params, configure_rto,
  configure_sack, configure_max_retrans, configure_ipv4_address_mapping,
  configure_peer_address_params, configure_max_seg, configure_keep_alive, configure_dscp,
  configure_ttl, configure_reuse_addr, configure_non_blocking_mode,
}
use sctp_sandbox_c.Peers.{Socket}
use sctp_sandbox_c.Bind.{
  log_each, log_laddrs, log_laddrs_tcp, log_paddrs, log_paddrs_tcp, configure_socket_sctp,
  configure_ip, configure_protocol, configure_socket, bind_socket_tcp, bind_socket_unix,
  bind_socket_sctp, bind_by_protocol, bind_socket, listen_socket, connect_single_socket,
}

module _ (env : Env) where
  ntop_text-Streams : (o : Option (List ℕ)) → Streams (ntop_text env o)
  unfolding ntop_text
  ntop_text-Streams none = search calls
  ntop_text-Streams (some text) = search calls

  pub sockaddr_storage_to_ip_socket-Streams :
      (a : Sockaddr) → Streams (sockaddr_storage_to_ip_socket env a)
  unfolding sockaddr_storage_to_ip_socket
  sockaddr_storage_to_ip_socket-Streams a = search (calls, ntop_text-Streams)

  pub ip_socket_to_sockaddr_storage-Streams :
      (s : IpSocket) → Streams (ip_socket_to_sockaddr_storage env s)
  unfolding ip_socket_to_sockaddr_storage
  ip_socket_to_sockaddr_storage-Streams s = search calls

  ip_sockets_to_sockaddrs-Streams : (ss : List IpSocket) → Streams (ip_sockets_to_sockaddrs env ss)
  unfolding ip_sockets_to_sockaddrs
  ip_sockets_to_sockaddrs-Streams [] = search calls
  ip_sockets_to_sockaddrs-Streams (s ∷ rest) =
      search (calls, ip_socket_to_sockaddr_storage-Streams s, ip_sockets_to_sockaddrs-Streams rest)

  log_each-Streams : (count : ℕ) (saddrs : List ℕ) → Streams (log_each env count saddrs)
  unfolding log_each
  log_each-Streams zero saddrs = search calls
  log_each-Streams (suc count) saddrs =
      search (calls, sockaddr_storage_to_ip_socket-Streams, log_each-Streams count)

  pub log_paddrs-Streams : (fd : ℤ) → Streams (log_paddrs env fd)
  unfolding log_paddrs
  log_paddrs-Streams fd = search (calls, log_each-Streams)

  log_laddrs-Streams : (fd : ℤ) → Streams (log_laddrs env fd)
  unfolding log_laddrs
  log_laddrs-Streams fd = search (calls, log_each-Streams)

  log_laddrs_tcp-Streams : (fd : ℤ) → Streams (log_laddrs_tcp env fd)
  unfolding log_laddrs_tcp
  log_laddrs_tcp-Streams fd = search (calls, sockaddr_storage_to_ip_socket-Streams)

  pub log_paddrs_tcp-Streams : (fd : ℤ) → Streams (log_paddrs_tcp env fd)
  unfolding log_paddrs_tcp
  log_paddrs_tcp-Streams fd = search (calls, sockaddr_storage_to_ip_socket-Streams)

  setsockopt-Streams : (fd : ℤ) (o : SockOpt) → Streams (setsockopt env fd o)
  unfolding setsockopt
  setsockopt-Streams fd o = search calls

  configure_non_blocking_mode-Streams : (fd : ℤ) → Streams (configure_non_blocking_mode env fd)
  unfolding configure_non_blocking_mode
  configure_non_blocking_mode-Streams fd = search calls

  configure_socket_sctp-Streams : (s : Socket) (fd : ℤ) → Streams (configure_socket_sctp env s fd)
  unfolding configure_socket_sctp configure_no_delay configure_receiving_events
      configure_init_params configure_rto configure_sack configure_max_retrans
      configure_ipv4_address_mapping configure_peer_address_params configure_max_seg
  configure_socket_sctp-Streams s fd = search (calls, setsockopt-Streams) depth 12

  configure_protocol-Streams :
      (p : NetworkProtocol) (s : Socket) (fd : ℤ) → Streams (configure_protocol env p s fd)
  unfolding configure_protocol configure_keep_alive
  configure_protocol-Streams sctp s fd = configure_socket_sctp-Streams s fd
  configure_protocol-Streams tcp s fd = search (calls, setsockopt-Streams)
  configure_protocol-Streams _ s fd = Calls-pure tt

  configure_ip-Streams : (s : Socket) (fd : ℤ) → Streams (configure_ip env s fd)
  unfolding configure_dscp configure_ttl
  configure_ip-Streams s fd = search (calls, setsockopt-Streams)

  pub configure_socket-Streams : (s : Socket) (fd : ℤ) → Streams (configure_socket env s fd)
  unfolding configure_socket configure_reuse_addr
  configure_socket-Streams s fd =
      search
        (
          calls, setsockopt-Streams, configure_non_blocking_mode-Streams, configure_ip-Streams,
          configure_protocol-Streams,
        )
        depth 8

  bind_socket_tcp-Streams : (fd : ℤ) (local : IpSocket) → Streams (bind_socket_tcp env fd local)
  unfolding bind_socket_tcp
  bind_socket_tcp-Streams fd local =
      search (calls, ip_socket_to_sockaddr_storage-Streams, log_laddrs_tcp-Streams)

  bind_socket_unix-Streams : (fd : ℤ) → Streams (bind_socket_unix env fd)
  unfolding bind_socket_unix
  bind_socket_unix-Streams fd = search calls

  bind_socket_sctp-Streams :
      (s : Socket) (locals : IpSockets) → Streams (bind_socket_sctp env s locals)
  unfolding bind_socket_sctp
  bind_socket_sctp-Streams s locals =
      search (calls, ip_sockets_to_sockaddrs-Streams, log_laddrs-Streams)

  bind_by_protocol-Streams :
      (p : NetworkProtocol) (s : Socket) (fd : ℤ) (locals : IpSockets)
      → Streams (bind_by_protocol env p s fd locals)
  unfolding bind_by_protocol
  bind_by_protocol-Streams tcp s fd locals = bind_socket_tcp-Streams fd _
  bind_by_protocol-Streams udp s fd locals = bind_socket_tcp-Streams fd _
  bind_by_protocol-Streams udp_lite s fd locals = bind_socket_tcp-Streams fd _
  bind_by_protocol-Streams dccp s fd locals = bind_socket_tcp-Streams fd _
  bind_by_protocol-Streams unix s fd locals = bind_socket_unix-Streams fd
  bind_by_protocol-Streams unix_forked s fd locals = Calls-pure tt
  bind_by_protocol-Streams sctp s fd locals = bind_socket_sctp-Streams s locals

  pub bind_socket-Streams :
      (s : Socket) (fd : ℤ) (locals : IpSockets) → Streams (bind_socket env s fd locals)
  unfolding bind_socket
  bind_socket-Streams s fd locals = bind_by_protocol-Streams s.protocol s fd locals

  pub listen_socket-Streams : (s : Socket) (backlog : ℕ) → Streams (listen_socket env s backlog)
  unfolding listen_socket
  listen_socket-Streams s backlog = search calls

  pub connect_single_socket-Streams :
      (fd : ℤ) (remote : IpSocket) → Streams (connect_single_socket env fd remote)
  unfolding connect_single_socket
  connect_single_socket-Streams fd remote = search (calls, ip_socket_to_sockaddr_storage-Streams)
