-- ===== src/Bind/Quiet.antt =====
-- Configuring, binding and connecting a descriptor reach no fault but an address without a text.
use sctp_sandbox_c.Base.{
  zero, suc, ℕ, Bool, List, [], ◌∷◌, Option, none, some, ℤ, ◌==◌, if◌then◌else◌,
}
use sctp_sandbox_c.Errors.{Check}
use sctp_sandbox_c.Protocol.{
  NetworkProtocol, sctp, tcp, udp, udp_lite, dccp, unix, unix_forked, af_unix,
}
use sctp_sandbox_c.Os.{
  Env, Call, SockOpt, IpSocket, Sockaddr, M, Fault, pure, fails, ◌>>=◌, check, checked,
}
use sctp_sandbox_c.Os.Ensures.{
  Ensures, Any, Ensures-pure, Ensures-fails, Ensures-bind, Ensures-if, Ensures-check,
  Ensures-checked,
}
use sctp_sandbox_c.IpSocket.{
  IpSockets, ntop_text, sockaddr_storage_to_ip_socket, ip_socket_to_sockaddr_storage,
  ip_sockets_to_sockaddrs, read_sockaddr,
}
use sctp_sandbox_c.Configuration.{
  setsockopt, configure_no_delay, configure_receiving_events, configure_init_params, configure_rto,
  configure_sack, configure_max_retrans, configure_ipv4_address_mapping,
  configure_peer_address_params, configure_max_seg, configure_keep_alive, configure_dscp,
  configure_ttl, configure_reuse_addr, configure_non_blocking_mode,
}
use sctp_sandbox_c.Peers.{Socket}
use sctp_sandbox_c.Bind.{
  log_each, log_laddrs, log_paddrs, log_laddrs_tcp, log_paddrs_tcp, configure_socket_sctp,
  configure_ip, configure_protocol, configure_socket, bind_socket_tcp, bind_socket_unix,
  bind_socket_sctp, bind_by_protocol, bind_socket, connect_single_socket,
}

module _ (env : Env) (F : Fault → Type 0) (unset : F Fault.uninitialised) where
  abbrev pub Quiet : {A : Type 0} → M A → Type 0
  Quiet m = Ensures F Any m

  pub Quiet-bind :
      {A B : Type 0} (m : M A) (f : A → M B) → Quiet m → ((a : A) → Quiet (f a)) → Quiet (m >>= f)
  Quiet-bind m f e k = Ensures-bind m f e λ a _. k a

  Quiet-pure : {A : Type 0} (a : A) → Quiet (pure a)
  Quiet-pure a = Ensures-pure a tt

  Quiet-if : {A : Type 0} (b : Bool) (m n : M A) → Quiet m → Quiet n → Quiet (if b then m else n)
  Quiet-if b m n e f = Ensures-if b m n (λ _. e) λ _. f

  Quiet-checked : (k : Check) (c : Call) → Quiet (checked env k c)
  Quiet-checked k c = Ensures-checked env k c

  Quiet-check : (k : Check) (r : ℤ) (e : ℕ) → Quiet (check env k r e)
  Quiet-check k r e = Ensures-check env k r e

  Quiet-fails : {A : Type 0} → Quiet (fails {A = A} Fault.uninitialised)
  Quiet-fails = Ensures-fails Fault.uninitialised unset

  ruleset quiet = (Quiet-bind, Quiet-pure, Quiet-if, Quiet-checked, Quiet-check, Quiet-fails)

  ntop_text-Quiet : (o : Option (List ℕ)) → Quiet (ntop_text env o)
  unfolding ntop_text
  ntop_text-Quiet none = search quiet
  ntop_text-Quiet (some text) = search quiet

  pub sockaddr_storage_to_ip_socket-Quiet :
      (a : Sockaddr) → Quiet (sockaddr_storage_to_ip_socket env a)
  unfolding sockaddr_storage_to_ip_socket
  sockaddr_storage_to_ip_socket-Quiet a = search (quiet, ntop_text-Quiet)

  pub ip_socket_to_sockaddr_storage-Quiet :
      (s : IpSocket) → Quiet (ip_socket_to_sockaddr_storage env s)
  unfolding ip_socket_to_sockaddr_storage
  ip_socket_to_sockaddr_storage-Quiet s = search quiet

  ip_sockets_to_sockaddrs-Quiet : (ss : List IpSocket) → Quiet (ip_sockets_to_sockaddrs env ss)
  unfolding ip_sockets_to_sockaddrs
  ip_sockets_to_sockaddrs-Quiet [] = search quiet
  ip_sockets_to_sockaddrs-Quiet (s ∷ rest) =
      Quiet-bind _ _ (ip_socket_to_sockaddr_storage-Quiet s)
        λ a. Quiet-bind _ _ (ip_sockets_to_sockaddrs-Quiet rest) λ others. Quiet-pure _

  log_each-Quiet : (count : ℕ) (saddrs : List ℕ) → Quiet (log_each env count saddrs)
  unfolding log_each
  log_each-Quiet zero saddrs = search quiet
  log_each-Quiet (suc count) saddrs =
      Quiet-bind _ _ (sockaddr_storage_to_ip_socket-Quiet (read_sockaddr saddrs))
        λ s. Quiet-bind _ _ (log_each-Quiet count _) λ others. Quiet-pure _

  pub log_paddrs-Quiet : (fd : ℤ) → Quiet (log_paddrs env fd)
  unfolding log_paddrs
  log_paddrs-Quiet fd = search (quiet, log_each-Quiet)

  log_laddrs-Quiet : (fd : ℤ) → Quiet (log_laddrs env fd)
  unfolding log_laddrs
  log_laddrs-Quiet fd = search (quiet, log_each-Quiet)

  log_laddrs_tcp-Quiet : (fd : ℤ) → Quiet (log_laddrs_tcp env fd)
  unfolding log_laddrs_tcp
  log_laddrs_tcp-Quiet fd = search (quiet, sockaddr_storage_to_ip_socket-Quiet)

  pub log_paddrs_tcp-Quiet : (fd : ℤ) → Quiet (log_paddrs_tcp env fd)
  unfolding log_paddrs_tcp
  log_paddrs_tcp-Quiet fd = search (quiet, sockaddr_storage_to_ip_socket-Quiet)

  setsockopt-Quiet : (fd : ℤ) (o : SockOpt) → Quiet (setsockopt env fd o)
  unfolding setsockopt
  setsockopt-Quiet fd o = search quiet

  configure_non_blocking_mode-Quiet : (fd : ℤ) → Quiet (configure_non_blocking_mode env fd)
  unfolding configure_non_blocking_mode
  configure_non_blocking_mode-Quiet fd = search quiet

  configure_socket_sctp-Quiet : (s : Socket) (fd : ℤ) → Quiet (configure_socket_sctp env s fd)
  unfolding configure_socket_sctp configure_no_delay configure_receiving_events
      configure_init_params configure_rto configure_sack configure_max_retrans
      configure_ipv4_address_mapping configure_peer_address_params configure_max_seg
  configure_socket_sctp-Quiet s fd = search (quiet, setsockopt-Quiet) depth 12

  configure_protocol-Quiet :
      (p : NetworkProtocol) (s : Socket) (fd : ℤ) → Quiet (configure_protocol env p s fd)
  unfolding configure_protocol configure_keep_alive
  configure_protocol-Quiet sctp s fd = configure_socket_sctp-Quiet s fd
  configure_protocol-Quiet tcp s fd = search (quiet, setsockopt-Quiet)
  configure_protocol-Quiet _ s fd = Quiet-pure tt

  configure_ip-Quiet : (s : Socket) (fd : ℤ) → Quiet (configure_ip env s fd)
  unfolding configure_dscp configure_ttl
  configure_ip-Quiet s fd = search (quiet, setsockopt-Quiet)

  pub configure_socket-Quiet : (s : Socket) (fd : ℤ) → Quiet (configure_socket env s fd)
  unfolding configure_socket configure_reuse_addr
  configure_socket-Quiet s fd = Quiet-bind _ _ (setsockopt-Quiet fd _) λ _.
      Quiet-bind _ _ (configure_non_blocking_mode-Quiet fd) λ _.
        Quiet-bind _ _
          (Quiet-if (s.family == af_unix) _ _ (Quiet-pure tt) (configure_ip-Quiet s fd))
          λ _. configure_protocol-Quiet s.protocol s fd

  bind_socket_tcp-Quiet : (fd : ℤ) (local : IpSocket) → Quiet (bind_socket_tcp env fd local)
  unfolding bind_socket_tcp
  bind_socket_tcp-Quiet fd local =
      search (quiet, ip_socket_to_sockaddr_storage-Quiet, log_laddrs_tcp-Quiet)

  bind_socket_unix-Quiet : (fd : ℤ) → Quiet (bind_socket_unix env fd)
  unfolding bind_socket_unix
  bind_socket_unix-Quiet fd = search quiet

  bind_socket_sctp-Quiet : (s : Socket) (locals : IpSockets) → Quiet (bind_socket_sctp env s locals)
  unfolding bind_socket_sctp
  bind_socket_sctp-Quiet s locals = search (quiet, ip_sockets_to_sockaddrs-Quiet, log_laddrs-Quiet)

  bind_by_protocol-Quiet :
      (p : NetworkProtocol) (s : Socket) (fd : ℤ) (locals : IpSockets)
      → Quiet (bind_by_protocol env p s fd locals)
  unfolding bind_by_protocol
  bind_by_protocol-Quiet tcp s fd locals = bind_socket_tcp-Quiet fd _
  bind_by_protocol-Quiet udp s fd locals = bind_socket_tcp-Quiet fd _
  bind_by_protocol-Quiet udp_lite s fd locals = bind_socket_tcp-Quiet fd _
  bind_by_protocol-Quiet dccp s fd locals = bind_socket_tcp-Quiet fd _
  bind_by_protocol-Quiet unix s fd locals = bind_socket_unix-Quiet fd
  bind_by_protocol-Quiet unix_forked s fd locals = Quiet-pure tt
  bind_by_protocol-Quiet sctp s fd locals = bind_socket_sctp-Quiet s locals

  pub bind_socket-Quiet :
      (s : Socket) (fd : ℤ) (locals : IpSockets) → Quiet (bind_socket env s fd locals)
  unfolding bind_socket
  bind_socket-Quiet s fd locals = bind_by_protocol-Quiet s.protocol s fd locals

  pub connect_single_socket-Quiet :
      (fd : ℤ) (remote : IpSocket) → Quiet (connect_single_socket env fd remote)
  unfolding connect_single_socket
  connect_single_socket-Quiet fd remote = search (quiet, ip_socket_to_sockaddr_storage-Quiet)
