-- ===== src/Dispatch/Calls.antt =====
-- Socket.c on every protocol: the calls that creation, connecting, the callbacks, receiving and sending
-- make.
use sctp_sandbox_c.Base.{ℕ, ℤ, pos, List, [], ◌∷◌, ◌||◌, is_nonzero, take}
use sctp_sandbox_c.Protocol.{
  is_udp, NetworkProtocol, sctp, tcp, udp, udp_lite, dccp, unix, unix_forked,
}
use sctp_sandbox_c.Os.{Env, Task}
use sctp_sandbox_c.Os.Calls.{Calls-pure, Calls-bind, Calls-if, calls, Grows, Calls-Grows}
use sctp_sandbox_c.Os.Scheduled.{Streams}
use sctp_sandbox_c.IpSocket.{IpSockets}
use sctp_sandbox_c.Bind.Scheduled.{configure_socket-Streams, bind_socket-Streams}
use sctp_sandbox_c.Peers.{Peer, Socket, quit_msg}
use sctp_sandbox_c.Peers.Scheduled.{close_fd-Streams}
use sctp_sandbox_c.Forked.{clean_up_message_queues, clean_up_semaphores, clean_up_shared_memory}
use sctp_sandbox_c.Tcp.Scheduled.{
  connect_socket_tcp-Streams, handle_message_tcp-Streams, handle_message_dccp-Streams,
  send_socket_tcp-Streams, send_socket_dccp-Streams,
}
use sctp_sandbox_c.Udp.Calls.{
  ping-Streams, handle_comm_lost_udp-Streams, connect_socket_udp-Grows, handle_message_udp-Grows,
  send_socket_udp-Streams,
}
use sctp_sandbox_c.UnixSocket.Scheduled.{
  connect_socket_unix-Streams, handle_message_unix-Streams, send_socket_unix-Streams,
}
use sctp_sandbox_c.Sctp.Scheduled.{
  connect_socket_sctp-Streams, handle_message_sctp-Streams, send_socket_sctp-Streams,
}
use sctp_sandbox_c.Forked.Scheduled.{
  clean_up_globals-Streams, init_forked_socket-Streams, handle_message_unix_forked-Streams,
  receive_unix_forked-Streams, send_socket_unix_forked-Streams,
}
use sctp_sandbox_c.Dispatch.{
  initial_socket, open_socket, prepare_socket, create_socket, connect_by_protocol, connect_socket,
  reestablish, run_task, handle_by_protocol, handle_message, handle_each, receive_rest,
  receive_socket, send_by_protocol, send_socket, close_each, notify_parent, clean_up_socket,
  is_dccp, is_unix_datagram,
}
use sctp_sandbox_c.Dispatch.Scheduled.{select_fds-Streams}

module _ (env : Env) where
  open_socket-Streams : (s : Socket) (locals : IpSockets) → Streams (open_socket env s locals)
  unfolding open_socket
  open_socket-Streams s locals = search (calls, configure_socket-Streams, bind_socket-Streams)

  prepare_socket-Streams :
      (p : NetworkProtocol) (s : Socket) (locals : IpSockets)
      → Streams (prepare_socket env p s locals)
  unfolding prepare_socket
  prepare_socket-Streams unix_forked s locals = init_forked_socket-Streams env s
  prepare_socket-Streams _ s locals = open_socket-Streams s locals

  pub create_socket-Streams :
      (locals : IpSockets) (p : NetworkProtocol) (family : ℕ)
      → Streams (create_socket env locals p family)
  unfolding create_socket
  create_socket-Streams locals p family =
      prepare_socket-Streams p (initial_socket locals p family) locals

  connect_by_protocol-Grows :
      (p : NetworkProtocol) (s : Socket) (remotes : IpSockets)
      → Grows (connect_by_protocol env p s remotes)
  unfolding connect_by_protocol
  connect_by_protocol-Grows tcp s remotes = Calls-Grows _ (connect_socket_tcp-Streams env s remotes)
  connect_by_protocol-Grows dccp s remotes =
      Calls-Grows _ (connect_socket_tcp-Streams env s remotes)
  connect_by_protocol-Grows udp s remotes = connect_socket_udp-Grows env s remotes
  connect_by_protocol-Grows udp_lite s remotes = connect_socket_udp-Grows env s remotes
  connect_by_protocol-Grows unix s remotes = Calls-Grows _ (connect_socket_unix-Streams s remotes)
  connect_by_protocol-Grows unix_forked s remotes = Calls-pure s
  connect_by_protocol-Grows sctp s remotes =
      Calls-Grows _ (connect_socket_sctp-Streams env s remotes)

  pub connect_socket-Grows :
      (s : Socket) (remotes : IpSockets) → Grows (connect_socket env s remotes)
  unfolding connect_socket
  connect_socket-Grows s remotes = connect_by_protocol-Grows s.protocol s remotes

  pub run_task-Grows : (s : Socket) (t : Task) → Grows (run_task env s t)
  unfolding run_task reestablish
  run_task-Grows s (Task.reestablish remote) = connect_socket-Grows s _
  run_task-Grows s (Task.ping remote) =
      Calls-Grows _ (Calls-bind _ _ (ping-Streams env s remote) λ _. Calls-pure s)
  run_task-Grows s (Task.comm_lost remote) =
      Calls-Grows _ (handle_comm_lost_udp-Streams env s remote)

  handle_by_protocol-Grows :
      (p : NetworkProtocol) (s : Socket) (fd : ℤ) → Grows (handle_by_protocol env p s fd)
  unfolding handle_by_protocol
  handle_by_protocol-Grows tcp s fd = Calls-Grows _ (handle_message_tcp-Streams env s fd)
  handle_by_protocol-Grows udp s fd = handle_message_udp-Grows env s fd
  handle_by_protocol-Grows udp_lite s fd = handle_message_udp-Grows env s fd
  handle_by_protocol-Grows dccp s fd = Calls-Grows _ (handle_message_dccp-Streams env s fd)
  handle_by_protocol-Grows unix s fd = Calls-Grows _ (handle_message_unix-Streams env s fd)
  handle_by_protocol-Grows unix_forked s fd =
      Calls-Grows _ (handle_message_unix_forked-Streams env s fd)
  handle_by_protocol-Grows sctp s fd = Calls-Grows _ (handle_message_sctp-Streams env s fd)

  handle_each-Grows : (s : Socket) (fds : List ℕ) → Grows (handle_each env s fds)
  unfolding handle_each handle_message
  handle_each-Grows s [] = Calls-pure s
  handle_each-Grows s (fd ∷ fds) =
      Calls-bind _ _ (handle_by_protocol-Grows s.protocol s (pos fd)) λ t. handle_each-Grows t fds

  receive_rest-Streams : (p : NetworkProtocol) (s : Socket) → Streams (receive_rest env p s)
  unfolding receive_rest
  receive_rest-Streams unix_forked s = receive_unix_forked-Streams env s
  receive_rest-Streams _ s = Calls-pure s

  pub receive_socket-Grows : (s : Socket) → Grows (receive_socket env s)
  unfolding receive_socket
  receive_socket-Grows s = Calls-bind _ _ (Calls-Grows _ (select_fds-Streams env s)) λ t.
      Calls-bind _ _ (handle_each-Grows t t.fd_set.selected_fds)
        λ u. Calls-Grows _ (receive_rest-Streams u.protocol u)

  send_by_protocol-Streams :
      (p : NetworkProtocol) (s : Socket) (msg : List ℕ) → Streams (send_by_protocol env p s msg)
  unfolding send_by_protocol
  send_by_protocol-Streams tcp s msg = send_socket_tcp-Streams env s msg
  send_by_protocol-Streams udp s msg = send_socket_udp-Streams env s msg
  send_by_protocol-Streams udp_lite s msg = send_socket_udp-Streams env s msg
  send_by_protocol-Streams dccp s msg = send_socket_dccp-Streams env s msg
  send_by_protocol-Streams unix s msg = send_socket_unix-Streams env s msg
  send_by_protocol-Streams unix_forked s msg = send_socket_unix_forked-Streams env s msg
  send_by_protocol-Streams sctp s msg = send_socket_sctp-Streams env s msg

  pub send_socket-Streams : (s : Socket) (msg : List ℕ) → Streams (send_socket env s msg)
  unfolding send_socket
  send_socket-Streams s msg = send_by_protocol-Streams s.protocol s msg

  close_each-Streams : (peers : List Peer) → Streams (close_each env peers)
  unfolding close_each
  close_each-Streams [] = search calls
  close_each-Streams (p ∷ peers) =
      let rest = close_each-Streams peers in
      Calls-if (is_nonzero p.fd) _ _ (Calls-bind _ _ (close_fd-Streams env p.fd) λ _. rest) rest

  clean_up_message_queues-Streams : (s : Socket) → Streams (clean_up_message_queues env s)
  unfolding clean_up_message_queues
  clean_up_message_queues-Streams s = search calls

  clean_up_semaphores-Streams : (s : Socket) → Streams (clean_up_semaphores env s)
  unfolding clean_up_semaphores
  clean_up_semaphores-Streams s = search calls depth 8

  clean_up_shared_memory-Streams : (s : Socket) → Streams (clean_up_shared_memory env s)
  unfolding clean_up_shared_memory
  clean_up_shared_memory-Streams s = search calls

  notify_parent-Streams : (s : Socket) → Streams (notify_parent env s)
  unfolding notify_parent
  notify_parent-Streams s = search calls

  pub clean_up_socket-Streams : (s : Socket) → Streams (clean_up_socket env s)
  unfolding clean_up_socket
  clean_up_socket-Streams s =
      Calls-bind _ _
        (Calls-if (is_dccp s.protocol || is_udp s.protocol || is_unix_datagram s.protocol) _ _
          (send_socket-Streams s quit_msg) (Calls-pure tt))
        λ _. Calls-bind _ _ (close_each-Streams (take s.peer_count s.peers)) λ _.
          Calls-bind _ _ (close_fd-Streams env s.fd) λ _.
            Calls-bind _ _ (close_fd-Streams env s.forked.pipe) λ _.
              Calls-bind _ _ (close_fd-Streams env s.forked.named_pipe) λ _.
                Calls-bind _ _ (close_fd-Streams env s.forked.shm) λ _.
                  Calls-bind _ _ (clean_up_message_queues-Streams s) λ _.
                    Calls-bind _ _ (clean_up_semaphores-Streams s) λ _.
                      Calls-bind _ _ (clean_up_shared_memory-Streams s) λ _.
                        Calls-bind _ _ (notify_parent-Streams s) λ _. clean_up_globals-Streams env
