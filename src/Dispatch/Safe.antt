-- ===== src/Dispatch/Safe.antt =====
-- Socket.c on the stream protocols: creation, connecting, the callbacks and a round of receiving.
use sctp_sandbox_c.Base.{ℕ, pos, ◌+◌, List, [], ◌∷◌, inl, inr, arith}
use sctp_sandbox_c.Protocol.{NetworkProtocol}
use sctp_sandbox_c.Os.{Env, Task}
use sctp_sandbox_c.Os.Ensures.{Ensures-pure, Ensures-bind, Ensures-checked, Ensures-weaken}
use sctp_sandbox_c.Os.Scheduled.{IsStreamTask}
use sctp_sandbox_c.Os.Calls.{calls}
use sctp_sandbox_c.Os.Safe.{Safe, Safe-both, Safe-bind, Safe-pure}
use sctp_sandbox_c.IpSocket.{IpSockets}
use sctp_sandbox_c.Bind.Quiet.{configure_socket-Quiet, bind_socket-Quiet}
use sctp_sandbox_c.Bind.Scheduled.{configure_socket-Streams, bind_socket-Streams}
use sctp_sandbox_c.FdSet.Select.{Ascends}
use sctp_sandbox_c.Peers.{Socket}
use sctp_sandbox_c.Peers.Present.{NotNull, unset-NotNull}
use sctp_sandbox_c.Tcp.{connect_socket_tcp}
use sctp_sandbox_c.Tcp.Kept.{connect_socket_tcp-NotNull}
use sctp_sandbox_c.Tcp.Scheduled.{connect_socket_tcp-Streams}
use sctp_sandbox_c.Dispatch.{
  initial_socket, open_socket, prepare_socket, create_socket, connect_by_protocol, connect_socket,
  reestablish, run_task, handle_message, handle_each, receive_socket,
}
use sctp_sandbox_c.Dispatch.Stream.{
  IsStream, AllKnown, AllKnown-Kept, SelectNarrows, handle_stream-Kept, select_fds-Known,
  receive_rest-Stream,
}
use sctp_sandbox_c.Dispatch.Scheduled.{OnStream, select_fds-Streams, handle_stream-Streams}

module _ (env : Env) where
  open_socket-Safe :
      (s : Socket) (locals : IpSockets)
      → OnStream s
      → Safe NotNull OnStream (open_socket env s locals)
  unfolding open_socket
  open_socket-Safe s locals stream =
      Safe-both _
        (Ensures-bind _ _ (Ensures-checked env _ _) λ r _.
          Ensures-bind _ _ (configure_socket-Quiet env NotNull unset-NotNull _ r.result) λ _ _.
            Ensures-bind _ _ (bind_socket-Quiet env NotNull unset-NotNull _ r.result locals)
              λ _ _. Ensures-pure _ stream)
        (search (calls, configure_socket-Streams, bind_socket-Streams))

  prepare_socket-Safe :
      (p : NetworkProtocol) (s : Socket) (locals : IpSockets)
      → IsStream p
      → OnStream s
      → Safe NotNull OnStream (prepare_socket env p s locals)
  unfolding prepare_socket
  prepare_socket-Safe p s locals (inl e) stream =
      rw (e, prepare_socket) (open_socket-Safe s locals stream)
  prepare_socket-Safe p s locals (inr e) stream =
      rw (e, prepare_socket) (open_socket-Safe s locals stream)

  pub create_socket-Safe :
      (locals : IpSockets) (p : NetworkProtocol) (family : ℕ)
      → IsStream p
      → Safe NotNull OnStream (create_socket env locals p family)
  unfolding create_socket initial_socket
  create_socket-Safe locals p family stream =
      prepare_socket-Safe p (initial_socket locals p family) locals stream stream

  connect_tcp-Safe :
      (s : Socket) (remotes : IpSockets)
      → OnStream s
      → Safe NotNull OnStream (connect_socket_tcp env s remotes)
  connect_tcp-Safe s remotes stream =
      Safe-both _
        (Ensures-weaken _ (connect_socket_tcp-NotNull env s remotes) λ t same. rw same stream)
        (connect_socket_tcp-Streams env s remotes)

  connect_by_protocol-Safe :
      (p : NetworkProtocol) (s : Socket) (remotes : IpSockets)
      → IsStream p
      → OnStream s
      → Safe NotNull OnStream (connect_by_protocol env p s remotes)
  unfolding connect_by_protocol
  connect_by_protocol-Safe p s remotes (inl e) stream =
      rw (e, connect_by_protocol) (connect_tcp-Safe s remotes stream)
  connect_by_protocol-Safe p s remotes (inr e) stream =
      rw (e, connect_by_protocol) (connect_tcp-Safe s remotes stream)

  pub connect_socket-Safe :
      (s : Socket) (remotes : IpSockets)
      → OnStream s
      → Safe NotNull OnStream (connect_socket env s remotes)
  unfolding connect_socket
  connect_socket-Safe s remotes stream = connect_by_protocol-Safe s.protocol s remotes stream stream

  -- Of the callbacks only a new connection is ever due.
  pub run_task-Safe :
      (s : Socket) (t : Task)
      → OnStream s
      → IsStreamTask t
      → Safe NotNull OnStream (run_task env s t)
  unfolding run_task reestablish
  run_task-Safe s (Task.reestablish remote) stream i = connect_socket-Safe s _ stream
  run_task-Safe s (Task.ping remote) stream i = elim i [ ]
  run_task-Safe s (Task.comm_lost remote) stream i = elim i [ ]

  handle_each-Safe :
      (s : Socket) (lo : ℕ) (fds : List ℕ)
      → OnStream s
      → Ascends lo fds
      → AllKnown s fds
      → Safe NotNull OnStream (handle_each env s fds)
  unfolding handle_each handle_message
  handle_each-Safe s lo [] stream a all = Safe-pure s stream
  handle_each-Safe s lo (fd ∷ fds) stream a (known, all) =
      Safe-bind _ _
        (Safe-both _ (handle_stream-Kept env s.protocol s (pos fd) stream known)
          (handle_stream-Streams env s.protocol s (pos fd) stream))
        λ t k.
          handle_each-Safe t (fd + 1) fds (rw k.same_protocol stream) a.1
            (AllKnown-Kept s t fd (fd + 1) fds (omega arith) a.1 k all)

  pub receive_socket-Safe :
      (s : Socket) → SelectNarrows env → OnStream s → Safe NotNull OnStream (receive_socket env s)
  unfolding receive_socket
  receive_socket-Safe s narrows stream =
      Safe-bind _ _ (Safe-both _ (select_fds-Known env narrows s stream) (select_fds-Streams env s))
        λ t ready.
          Safe-bind _ _ (handle_each-Safe t 0 t.fd_set.selected_fds ready.0 ready.1 ready.2)
            λ u stream'. rw (receive_rest-Stream env u.protocol u stream') (Safe-pure u stream')
