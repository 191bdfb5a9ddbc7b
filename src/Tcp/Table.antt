-- ===== src/Tcp/Table.antt =====
-- SocketTcp.c keeps the table of peers in shape.
use sctp_sandbox_c.Base.{List, [], ◌∷◌, ℤ, ◌==◌, ◌==ℤ◌}
use sctp_sandbox_c.Errors.{Check, failed}
use sctp_sandbox_c.Os.{Env, IpSocket, Reply}
use sctp_sandbox_c.Os.Ensures.{
  Ensures, Any, Ensures-pure, Ensures-bind, Ensures-if, Ensures-invoke, Ensures-check,
}
use sctp_sandbox_c.IpSocket.{IpSockets, listed}
use sctp_sandbox_c.Bind.Quiet.{
  configure_socket-Quiet, bind_socket-Quiet, connect_single_socket-Quiet, log_paddrs_tcp-Quiet,
  sockaddr_storage_to_ip_socket-Quiet,
}
use sctp_sandbox_c.Peers.{Socket, find_peer_by_fd, first_byte}
use sctp_sandbox_c.Peers.Table.{
  Indexed, unset-Indexed, IsValid, Follows, Ensures-then, Ensures-unchanged, Ensures-room, InTable,
  add_peer-Follows, remove_peer-Follows, terminate_message-Follows, peer_through-Indexed,
  schedule_reestablishment-Indexed,
}
use sctp_sandbox_c.Peers.Find.{find_peer-InTable}
use sctp_sandbox_c.Tcp.{
  create_connect_socket, connect_each_tcp, connect_socket_tcp, handle_comm_up_tcp,
  handle_comm_lost_tcp, handle_graceful_shutdown_tcp, received_tcp, handle_message_tcp,
}

find_peer_by_fd-InTable : (s : Socket) (fd : ℤ) → InTable s (find_peer_by_fd s fd)
unfolding find_peer_by_fd
find_peer_by_fd-InTable s fd = find_peer-InTable s _

module _ (env : Env) where
  create_connect_socket-Indexed : (s : Socket) → Ensures Indexed Any (create_connect_socket env s)
  unfolding create_connect_socket
  create_connect_socket-Indexed s = Ensures-bind _ _ (Ensures-invoke env _) λ r _.
      Ensures-bind _ _ (Ensures-check env _ _ _) λ _ _.
        Ensures-bind _ _ (configure_socket-Quiet env Indexed unset-Indexed s r.result) λ _ _.
          Ensures-bind _ _ (bind_socket-Quiet env Indexed unset-Indexed s r.result _)
            λ _ _. Ensures-pure _ tt

  connect_each_tcp-Follows :
      (s : Socket) (remotes : List IpSocket)
      → IsValid s
      → Ensures Indexed (Follows s) (connect_each_tcp env s remotes)
  unfolding connect_each_tcp
  connect_each_tcp-Follows s [] v = Ensures-unchanged s v
  connect_each_tcp-Follows s (remote ∷ rest) v = Ensures-room s _ v λ room.
      Ensures-then s _ _
        (Ensures-bind _ _ (create_connect_socket-Indexed s) λ fd _.
          Ensures-bind _ _ (connect_single_socket-Quiet env Indexed unset-Indexed fd remote)
            λ _ _. add_peer-Follows s _ v room)
        λ t v'. connect_each_tcp-Follows t rest v'

  pub connect_socket_tcp-Follows :
      (s : Socket) (remotes : IpSockets)
      → IsValid s
      → Ensures Indexed (Follows s) (connect_socket_tcp env s remotes)
  unfolding connect_socket_tcp
  connect_socket_tcp-Follows s remotes v = connect_each_tcp-Follows s (listed remotes) v

  pub handle_comm_up_tcp-Follows :
      (s : Socket) (fd : ℤ) → IsValid s → Ensures Indexed (Follows s) (handle_comm_up_tcp env s fd)
  unfolding handle_comm_up_tcp
  handle_comm_up_tcp-Follows s fd v = Ensures-room s _ v λ room.
      Ensures-bind _ _ (Ensures-invoke env _) λ r _.
        Ensures-bind _ _ (Ensures-check env _ _ _) λ _ _.
          Ensures-bind _ _ (sockaddr_storage_to_ip_socket-Quiet env Indexed unset-Indexed r.from)
            λ remote _. add_peer-Follows s _ v room

  pub handle_comm_lost_tcp-Follows :
      (s : Socket) (fd : ℤ)
      → IsValid s
      → Ensures Indexed (Follows s) (handle_comm_lost_tcp env s fd)
  unfolding handle_comm_lost_tcp
  handle_comm_lost_tcp-Follows s fd v =
      let found = find_peer_by_fd-InTable s fd in
      Ensures-bind _ _ (peer_through-Indexed s _ found) λ ip _.
        Ensures-bind _ _
          (Ensures-if ip.1.should_reestablish _ _
            (λ _. schedule_reestablishment-Indexed env ip.1.remote) λ _. Ensures-pure tt tt)
          λ _ _. remove_peer-Follows env s _ v found

  pub handle_graceful_shutdown_tcp-Follows :
      (s : Socket) (fd : ℤ)
      → IsValid s
      → Ensures Indexed (Follows s) (handle_graceful_shutdown_tcp env s fd)
  unfolding handle_graceful_shutdown_tcp
  handle_graceful_shutdown_tcp-Follows s fd v =
      let found = find_peer_by_fd-InTable s fd in
      Ensures-bind _ _ (peer_through-Indexed s _ found) λ _ _. remove_peer-Follows env s _ v found

  received_tcp-Follows :
      (s : Socket) (fd : ℤ) (r : Reply)
      → IsValid s
      → Ensures Indexed (Follows s) (received_tcp env s fd r)
  unfolding received_tcp
  received_tcp-Follows s fd r v =
      Ensures-if (failed Check.receive r.result r.errno) _ _
        (λ _. handle_comm_lost_tcp-Follows s fd v)
        λ _. Ensures-then s _ _ (terminate_message-Follows s r v) λ t v'.
          Ensures-if (first_byte t.msg_buffer == 0) _ _
            (λ _. handle_graceful_shutdown_tcp-Follows t fd v')
            λ _.
              Ensures-bind _ _ (log_paddrs_tcp-Quiet env Indexed unset-Indexed fd)
                λ _ _. Ensures-unchanged t v'

  pub handle_message_tcp-Follows :
      (s : Socket) (fd : ℤ) → IsValid s → Ensures Indexed (Follows s) (handle_message_tcp env s fd)
  unfolding handle_message_tcp
  handle_message_tcp-Follows s fd v =
      Ensures-if (fd ==ℤ s.fd) _ _ (λ _. handle_comm_up_tcp-Follows s fd v)
        λ _. Ensures-bind _ _ (Ensures-invoke env _) λ r _. received_tcp-Follows s fd r v
