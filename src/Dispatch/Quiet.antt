-- ===== src/Dispatch/Quiet.antt =====
-- Sending and cleaning up reach no fault but an address without a text.
use sctp_sandbox_c.Base.{
  ℕ, zero, suc, Bool, List, [], ◌∷◌, ℤ, pos, is_nonzero, ltb, take, ◌||◌, if◌then◌else◌,
}
use sctp_sandbox_c.Protocol.{
  NetworkProtocol, sctp, tcp, udp, udp_lite, dccp, unix, unix_forked, is_udp,
}
use sctp_sandbox_c.Os.{Env, Call, IpSocket, M, Fault, pure, ◌>>◌, invoke, checked}
use sctp_sandbox_c.Errors.{Check}
use sctp_sandbox_c.Os.Ensures.{
  Ensures, Any, Ensures-pure, Ensures-fails, Ensures-bind, Ensures-if, Ensures-invoke,
  Ensures-checked,
}
use sctp_sandbox_c.Bind.{listen_socket, should_listen}
use sctp_sandbox_c.Bind.Quiet.{ip_socket_to_sockaddr_storage-Quiet}
use sctp_sandbox_c.Protocol.{type_from_network_protocol}
use sctp_sandbox_c.Peers.{Peer, Socket, close_fd, quit_msg}
use sctp_sandbox_c.Tcp.{send_each_tcp, send_socket_tcp}
use sctp_sandbox_c.Dccp.{send_each_dccp, send_socket_dccp}
use sctp_sandbox_c.Udp.{send_each_udp, send_socket_udp, send_socket_udp_to_remote}
use sctp_sandbox_c.UnixSocket.{send_each_unix, send_socket_unix}
use sctp_sandbox_c.Sctp.{send_each_sctp, send_socket_sctp}
use sctp_sandbox_c.Forked.{
  is_child, clean_up_globals, send_on_socket_pair, send_on_pipe, send_on_named_pipe, send_each_mq,
  send_on_message_queue, set_posix_shared_memory, set_sys_v_shared_memory, post_named_semaphore,
  post_unnamed_semaphore, print_semaphore_values, send_socket_unix_forked, clean_up_message_queues,
  clean_up_semaphores, clean_up_shared_memory,
}
use sctp_sandbox_c.Dispatch.{
  send_by_protocol, send_socket, close_each, notify_parent, clean_up_socket, is_dccp,
  is_unix_datagram,
}

module _ (env : Env) (F : Fault → Type 0) (unset : F Fault.uninitialised) where
  abbrev Quiet : {A : Type 0} → M A → Type 0
  Quiet m = Ensures F Any m

  -- One after the other.
  then-Quiet : {A B : Type 0} (m : M A) (n : M B) → Quiet m → Quiet n → Quiet (m >> n)
  then-Quiet m n e f = Ensures-bind m _ e λ _ _. f

  invoked : (c : Call) → Quiet (invoke env c)
  invoked c = Ensures-invoke env c

  call_checked : (k : Check) (c : Call) → Quiet (checked env k c)
  call_checked k c = Ensures-checked env k c

  done : {A : Type 0} (a : A) → Quiet (pure a)
  done a = Ensures-pure a tt

  either : {A : Type 0} (b : Bool) (m n : M A) → Quiet m → Quiet n → Quiet (if b then m else n)
  either b m n e f = Ensures-if b m n (λ _. e) λ _. f

  ruleset quiet = (then-Quiet, invoked, call_checked, done, either)

  send_each_tcp-Quiet : (msg : List ℕ) (peers : List Peer) → Quiet (send_each_tcp env msg peers)
  unfolding send_each_tcp
  send_each_tcp-Quiet msg [] = done tt
  send_each_tcp-Quiet msg (p ∷ peers) =
      let rest = send_each_tcp-Quiet msg peers in
      either (is_nonzero p.fd) _ _ (then-Quiet _ _ (call_checked _ _) rest) rest

  send_each_sctp-Quiet : (msg : List ℕ) (peers : List Peer) → Quiet (send_each_sctp env msg peers)
  unfolding send_each_sctp
  send_each_sctp-Quiet msg [] = done tt
  send_each_sctp-Quiet msg (p ∷ peers) =
      let rest = send_each_sctp-Quiet msg peers in
      either (is_nonzero p.fd) _ _ (then-Quiet _ _ (call_checked _ _) rest) rest

  send_each_dccp-Quiet : (msg : List ℕ) (peers : List Peer) → Quiet (send_each_dccp env msg peers)
  unfolding send_each_dccp
  send_each_dccp-Quiet msg [] = done tt
  send_each_dccp-Quiet msg (p ∷ peers) =
      let rest = send_each_dccp-Quiet msg peers in
      either (is_nonzero p.fd) _ _ (then-Quiet _ _ (invoked _) rest) rest

  send_to_remote-Quiet :
      (s : Socket) (msg : List ℕ) (remote : IpSocket)
      → Quiet (send_socket_udp_to_remote env s msg remote)
  unfolding send_socket_udp_to_remote
  send_to_remote-Quiet s msg remote =
      Ensures-bind _ _ (ip_socket_to_sockaddr_storage-Quiet env F unset remote)
        λ a _. then-Quiet _ _ (call_checked _ _) (done tt)

  send_each_udp-Quiet :
      (s : Socket) (msg : List ℕ) (peers : List Peer) → Quiet (send_each_udp env s msg peers)
  unfolding send_each_udp
  send_each_udp-Quiet s msg [] = done tt
  send_each_udp-Quiet s msg (p ∷ peers) =
      let rest = send_each_udp-Quiet s msg peers in
      either (ltb 0 p.remote.port) _ _ (then-Quiet _ _ (send_to_remote-Quiet s msg p.remote) rest)
        rest

  send_each_unix-Quiet :
      (s : Socket) (msg : List ℕ) (peers : List Peer) → Quiet (send_each_unix env s msg peers)
  unfolding send_each_unix
  send_each_unix-Quiet s msg [] = done tt
  send_each_unix-Quiet s msg (p ∷ peers) =
      let rest = send_each_unix-Quiet s msg peers in
      either (env.empty p.path) _ _ rest (then-Quiet _ _ (call_checked _ _) rest)

  send_each_mq-Quiet :
      (mq : ℤ) (msg : List ℕ) (n : ℕ) (priorities : List ℕ)
      → Quiet (send_each_mq env mq msg n priorities)
  unfolding send_each_mq
  send_each_mq-Quiet mq msg zero priorities = done tt
  send_each_mq-Quiet mq msg (suc n) [] = Ensures-fails Fault.uninitialised unset
  send_each_mq-Quiet mq msg (suc n) (priority ∷ rest) =
      then-Quiet _ _ (call_checked _ _) (send_each_mq-Quiet mq msg n rest)

  print_semaphore_values-Quiet : (s : Socket) → Quiet (print_semaphore_values env s)
  unfolding print_semaphore_values
  print_semaphore_values-Quiet s =
      then-Quiet _ _ (call_checked _ _) (then-Quiet _ _ (call_checked _ _) (done tt))

  send_socket_unix_forked-Quiet :
      (s : Socket) (msg : List ℕ) → Quiet (send_socket_unix_forked env s msg)
  unfolding send_socket_unix_forked send_on_socket_pair send_on_pipe send_on_named_pipe
      send_on_message_queue set_posix_shared_memory set_sys_v_shared_memory post_named_semaphore
      post_unnamed_semaphore
  send_socket_unix_forked-Quiet s msg =
      then-Quiet _ _ (then-Quiet _ _ (call_checked _ _) (done tt)) (
        then-Quiet _ _ (then-Quiet _ _ (call_checked _ _) (done tt)) (
          then-Quiet _ _ (then-Quiet _ _ (call_checked _ _) (done tt)) (
            then-Quiet _ _
              (Ensures-bind _ _ (invoked _)
                λ r _. send_each_mq-Quiet s.forked.peer_mq msg 5 r.numbers)
              (then-Quiet _ _ (then-Quiet _ _ (invoked _) (done tt)) (
                then-Quiet _ _ (then-Quiet _ _ (call_checked _ _) (print_semaphore_values-Quiet s))
                  (then-Quiet _ _ (then-Quiet _ _ (invoked _) (done tt))
                    (then-Quiet _ _ (call_checked _ _) (print_semaphore_values-Quiet s))))))))

  send_by_protocol-Quiet :
      (p : NetworkProtocol) (s : Socket) (msg : List ℕ) → Quiet (send_by_protocol env p s msg)
  unfolding send_by_protocol send_socket_tcp send_socket_dccp send_socket_udp send_socket_unix
      send_socket_sctp
  send_by_protocol-Quiet tcp s msg = send_each_tcp-Quiet msg (take s.peer_count s.peers)
  send_by_protocol-Quiet udp s msg = send_each_udp-Quiet s msg (take s.peer_count s.peers)
  send_by_protocol-Quiet udp_lite s msg = send_each_udp-Quiet s msg (take s.peer_count s.peers)
  send_by_protocol-Quiet dccp s msg = send_each_dccp-Quiet msg (take s.peer_count s.peers)
  send_by_protocol-Quiet unix s msg = send_each_unix-Quiet s msg (take s.peer_count s.peers)
  send_by_protocol-Quiet unix_forked s msg = send_socket_unix_forked-Quiet s msg
  send_by_protocol-Quiet sctp s msg = send_each_sctp-Quiet msg (take s.peer_count s.peers)

  pub send_socket-Quiet : (s : Socket) (msg : List ℕ) → Quiet (send_socket env s msg)
  unfolding send_socket
  send_socket-Quiet s msg = send_by_protocol-Quiet s.protocol s msg

  close_fd-Quiet : (fd : ℤ) → Quiet (close_fd env fd)
  unfolding close_fd
  close_fd-Quiet fd =
      either (is_nonzero fd) _ _ (then-Quiet _ _ (invoked _) (done (pos 0))) (done fd)

  close_each-Quiet : (peers : List Peer) → Quiet (close_each env peers)
  unfolding close_each
  close_each-Quiet [] = done tt
  close_each-Quiet (p ∷ peers) =
      let rest = close_each-Quiet peers in
      either (is_nonzero p.fd) _ _ (then-Quiet _ _ (close_fd-Quiet p.fd) rest) rest

  clean_up_message_queues-Quiet : (s : Socket) → Quiet (clean_up_message_queues env s)
  unfolding clean_up_message_queues
  clean_up_message_queues-Quiet s =
      then-Quiet _ _ (invoked _) (then-Quiet _ _ (invoked _) (done tt))

  clean_up_semaphores-Quiet : (s : Socket) → Quiet (clean_up_semaphores env s)
  unfolding clean_up_semaphores
  clean_up_semaphores-Quiet s =
      then-Quiet _ _ (invoked _) (then-Quiet _ _ (invoked _) (then-Quiet _ _ (invoked _) (done tt)))

  clean_up_shared_memory-Quiet : (s : Socket) → Quiet (clean_up_shared_memory env s)
  unfolding clean_up_shared_memory
  clean_up_shared_memory-Quiet s = then-Quiet _ _ (invoked _) (then-Quiet _ _ (invoked _) (done tt))

  clean_up_globals-Quiet : Quiet (clean_up_globals env)
  unfolding clean_up_globals
  clean_up_globals-Quiet = then-Quiet _ _ (invoked _) (
      then-Quiet _ _ (invoked _)
        (then-Quiet _ _ (invoked _) (then-Quiet _ _ (invoked _) (done tt))))

  notify_parent-Quiet : (s : Socket) → Quiet (notify_parent env s)
  unfolding notify_parent
  notify_parent-Quiet s = either (is_child s) _ _ (then-Quiet _ _ (invoked _) (done tt)) (done tt)

  pub clean_up_socket-Quiet : (s : Socket) → Quiet (clean_up_socket env s)
  unfolding clean_up_socket
  clean_up_socket-Quiet s =
      then-Quiet _ _
        (either (is_dccp s.protocol || is_udp s.protocol || is_unix_datagram s.protocol) _ _
          (send_socket-Quiet s quit_msg) (done tt))
        (then-Quiet _ _ (close_each-Quiet (take s.peer_count s.peers)) (
          then-Quiet _ _ (close_fd-Quiet s.fd) (
            then-Quiet _ _ (close_fd-Quiet s.forked.pipe) (
              then-Quiet _ _ (close_fd-Quiet s.forked.named_pipe) (
                then-Quiet _ _ (close_fd-Quiet s.forked.shm) (
                  then-Quiet _ _ (clean_up_message_queues-Quiet s) (
                    then-Quiet _ _ (clean_up_semaphores-Quiet s) (
                      then-Quiet _ _ (clean_up_shared_memory-Quiet s)
                        (then-Quiet _ _ (notify_parent-Quiet s) clean_up_globals-Quiet)))))))))

  pub listen_socket-Quiet : (s : Socket) (backlog : ℕ) → Quiet (listen_socket env s backlog)
  unfolding listen_socket
  listen_socket-Quiet s backlog =
      either (should_listen (type_from_network_protocol s.protocol)) _ _
        (then-Quiet _ _ (call_checked _ _) (done tt)) (done tt)
