-- ===== src/Dispatch/Table.antt =====
-- Socket.c keeps the table of peers in shape, whatever the protocol.
use sctp_sandbox_c.Base.{ℕ, List, [], ◌∷◌, ℤ, pos, is_nonzero, refl, arith, take, ltb}
use sctp_sandbox_c.Protocol.{
  NetworkProtocol, sctp, tcp, udp, udp_lite, dccp, unix, unix_forked, is_udp,
}
use sctp_sandbox_c.Os.{Env, Task, Fault}
use sctp_sandbox_c.Os.Ensures.{
  Ensures, Any, Ensures-pure, Ensures-fails, Ensures-bind, Ensures-if, Ensures-checked,
}
use sctp_sandbox_c.IpSocket.{IpSockets}
use sctp_sandbox_c.FdSet.{FdSet, fd_setsize, set_fd, select_impl, select_fd_set}
use sctp_sandbox_c.Bind.Quiet.{configure_socket-Quiet, bind_socket-Quiet}
use sctp_sandbox_c.Peers.{Peer, Socket}
use sctp_sandbox_c.Peers.Table.{
  Indexed, unset-Indexed, IsValid, Follows, Ensures-then, Ensures-unchanged,
}
use sctp_sandbox_c.Tcp.Table.{connect_socket_tcp-Follows, handle_message_tcp-Follows}
use sctp_sandbox_c.Dccp.Table.{handle_message_dccp-Follows}
use sctp_sandbox_c.Udp.{ping}
use sctp_sandbox_c.Udp.Table.{
  connect_socket_udp-Follows, handle_message_udp-Follows, handle_comm_lost_udp-Follows,
  send_socket_udp_to_remote-Indexed,
}
use sctp_sandbox_c.UnixSocket.Table.{connect_socket_unix-Follows, handle_message_unix-Follows}
use sctp_sandbox_c.Sctp.Table.{connect_socket_sctp-Follows, handle_message_sctp-Follows}
use sctp_sandbox_c.Forked.Table.{
  receive_unix_forked-Follows, handle_message_unix_forked-Follows, init_forked_socket-IsValid,
}
use sctp_sandbox_c.Dispatch.{
  initial_socket, set_each, gather_fds, open_socket, prepare_socket, create_socket,
  connect_by_protocol, connect_socket, reestablish, run_task, select_fds, handle_by_protocol,
  handle_message, handle_each, receive_rest, receive_socket,
}

initial_socket-IsValid :
    (locals : IpSockets) (p : NetworkProtocol) (family : ℕ)
    → IsValid (initial_socket locals p family)
unfolding initial_socket
initial_socket-IsValid locals p family = record { table = refl; count = omega arith }

set_fd-Indexed : (f : FdSet) (fd : ℤ) → Ensures Indexed Any (set_fd f fd)
unfolding set_fd
set_fd-Indexed f (pos fd) =
    Ensures-if (ltb fd fd_setsize) _ _ (λ _. Ensures-pure _ tt)
      λ _. Ensures-fails Fault.fd_range (λ e. cc)
set_fd-Indexed f _ = Ensures-fails Fault.fd_range (λ e. cc)

set_each-Indexed : (f : FdSet) (peers : List Peer) → Ensures Indexed Any (set_each f peers)
unfolding set_each
set_each-Indexed f [] = Ensures-pure f tt
set_each-Indexed f (p ∷ peers) =
    Ensures-if (is_nonzero p.fd) _ _
      (λ _. Ensures-bind _ _ (set_fd-Indexed f p.fd) λ g _. set_each-Indexed g peers)
      λ _. set_each-Indexed f peers

gather_fds-Indexed : (s : Socket) → Ensures Indexed Any (gather_fds s)
unfolding gather_fds
gather_fds-Indexed s = Ensures-bind _ _ (set_fd-Indexed _ s.fd) λ f _.
    Ensures-if (is_udp s.protocol) _ _ (λ _. Ensures-pure f tt)
      λ _. set_each-Indexed f (take s.peer_count s.peers)

module _ (env : Env) where
  open_socket-IsValid :
      (s : Socket) (locals : IpSockets)
      → IsValid s
      → Ensures Indexed IsValid (open_socket env s locals)
  unfolding open_socket
  open_socket-IsValid s locals v = Ensures-bind _ _ (Ensures-checked env _ _) λ r _.
      Ensures-bind _ _ (configure_socket-Quiet env Indexed unset-Indexed _ r.result) λ _ _.
        Ensures-bind _ _ (bind_socket-Quiet env Indexed unset-Indexed _ r.result locals)
          λ _ _. Ensures-pure _ (record { table = v.table; count = v.count })

  prepare_socket-IsValid :
      (p : NetworkProtocol) (s : Socket) (locals : IpSockets)
      → IsValid s
      → Ensures Indexed IsValid (prepare_socket env p s locals)
  unfolding prepare_socket
  prepare_socket-IsValid unix_forked s locals v = init_forked_socket-IsValid env s v
  prepare_socket-IsValid _ s locals v = open_socket-IsValid s locals v

  -- Creating a socket of any protocol, for any addresses and any results of the calls, does not
  -- index outside the table of peers; where it returns, the table has ten entries and the count is
  -- at most ten.
  pub create_socket-IsValid :
      (locals : IpSockets) (p : NetworkProtocol) (family : ℕ)
      → Ensures Indexed IsValid (create_socket env locals p family)
  unfolding create_socket
  create_socket-IsValid locals p family =
      prepare_socket-IsValid p _ locals (initial_socket-IsValid locals p family)

  connect_by_protocol-Follows :
      (p : NetworkProtocol) (s : Socket) (remotes : IpSockets)
      → IsValid s
      → Ensures Indexed (Follows s) (connect_by_protocol env p s remotes)
  unfolding connect_by_protocol
  connect_by_protocol-Follows tcp s remotes v = connect_socket_tcp-Follows env s remotes v
  connect_by_protocol-Follows dccp s remotes v = connect_socket_tcp-Follows env s remotes v
  connect_by_protocol-Follows udp s remotes v = connect_socket_udp-Follows env s remotes v
  connect_by_protocol-Follows udp_lite s remotes v = connect_socket_udp-Follows env s remotes v
  connect_by_protocol-Follows unix s remotes v = connect_socket_unix-Follows s remotes v
  connect_by_protocol-Follows unix_forked s remotes v = Ensures-unchanged s v
  connect_by_protocol-Follows sctp s remotes v = connect_socket_sctp-Follows env s remotes v

  pub connect_socket-Follows :
      (s : Socket) (remotes : IpSockets)
      → IsValid s
      → Ensures Indexed (Follows s) (connect_socket env s remotes)
  unfolding connect_socket
  connect_socket-Follows s remotes v = connect_by_protocol-Follows s.protocol s remotes v

  -- No callback of a scheduled task, on a socket with the table in shape, indexes outside the
  -- table; where it returns, the table and the count are in shape again, the count is no lower, and
  -- the protocol and the descriptor are the same.
  pub run_task-Follows :
      (s : Socket) (t : Task) → IsValid s → Ensures Indexed (Follows s) (run_task env s t)
  unfolding run_task reestablish ping
  run_task-Follows s (Task.reestablish remote) v = connect_socket-Follows s _ v
  run_task-Follows s (Task.ping remote) v =
      Ensures-bind _ _ (send_socket_udp_to_remote-Indexed env s _ remote)
        λ _ _. Ensures-unchanged s v
  run_task-Follows s (Task.comm_lost remote) v = handle_comm_lost_udp-Follows env s remote v

  select_fds-Follows : (s : Socket) → IsValid s → Ensures Indexed (Follows s) (select_fds env s)
  unfolding select_fds select_fd_set select_impl
  select_fds-Follows s v = Ensures-bind _ _ (gather_fds-Indexed s) λ f _.
      Ensures-bind _ _ (selects f) λ g _. Ensures-pure _ (record {
        valid = record { table = v.table; count = v.count };
        grows = omega arith;
        same_protocol = refl;
        same_fd = refl;
      })
    where
      selects : (f : FdSet) → Ensures Indexed Any (select_fd_set env f 10)
      selects f = Ensures-bind _ _ (Ensures-checked env _ _) λ r _. Ensures-pure _ tt

  handle_by_protocol-Follows :
      (p : NetworkProtocol) (s : Socket) (fd : ℤ)
      → IsValid s
      → Ensures Indexed (Follows s) (handle_by_protocol env p s fd)
  unfolding handle_by_protocol
  handle_by_protocol-Follows tcp s fd v = handle_message_tcp-Follows env s fd v
  handle_by_protocol-Follows udp s fd v = handle_message_udp-Follows env s fd v
  handle_by_protocol-Follows udp_lite s fd v = handle_message_udp-Follows env s fd v
  handle_by_protocol-Follows dccp s fd v = handle_message_dccp-Follows env s fd v
  handle_by_protocol-Follows unix s fd v = handle_message_unix-Follows env s fd v
  handle_by_protocol-Follows unix_forked s fd v = handle_message_unix_forked-Follows env s fd v
  handle_by_protocol-Follows sctp s fd v = handle_message_sctp-Follows env s fd v

  handle_each-Follows :
      (s : Socket) (fds : List ℕ) → IsValid s → Ensures Indexed (Follows s) (handle_each env s fds)
  unfolding handle_each handle_message
  handle_each-Follows s [] v = Ensures-unchanged s v
  handle_each-Follows s (fd ∷ fds) v =
      Ensures-then s _ _ (handle_by_protocol-Follows s.protocol s (pos fd) v)
        λ t v'. handle_each-Follows t fds v'

  receive_rest-Follows :
      (p : NetworkProtocol) (s : Socket)
      → IsValid s
      → Ensures Indexed (Follows s) (receive_rest env p s)
  unfolding receive_rest
  receive_rest-Follows unix_forked s v = receive_unix_forked-Follows env s v
  receive_rest-Follows _ s v = Ensures-unchanged s v

  pub receive_socket-Follows :
      (s : Socket) → IsValid s → Ensures Indexed (Follows s) (receive_socket env s)
  unfolding receive_socket
  receive_socket-Follows s v = Ensures-then s _ _ (select_fds-Follows s v) λ t v'.
      Ensures-then t _ _ (handle_each-Follows t t.fd_set.selected_fds v')
        λ u w. receive_rest-Follows u.protocol u w
