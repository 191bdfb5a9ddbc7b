-- ===== src/Udp/Table.antt =====
-- SocketUdp.c keeps the table of peers in shape.
use sctp_sandbox_c.Base.{ℕ, List, [], ◌∷◌, ℤ, Option-cases, inl, inr}
use sctp_sandbox_c.Os.{Env, IpSocket}
use sctp_sandbox_c.Os.Ensures.{
  Ensures, Any, Ensures-pure, Ensures-bind, Ensures-if, Ensures-invoke, Ensures-checked,
}
use sctp_sandbox_c.IpSocket.{IpSockets, listed}
use sctp_sandbox_c.Bind.Quiet.{
  sockaddr_storage_to_ip_socket-Quiet, ip_socket_to_sockaddr_storage-Quiet,
}
use sctp_sandbox_c.Peers.{Peer, Socket, c_string, quit_msg}
use sctp_sandbox_c.Peers.Table.{
  Indexed, unset-Indexed, IsValid, Follows, Ensures-then, Ensures-unchanged, Ensures-room, InTable,
  add_peer-Follows, remove_peer-Follows, terminate_message-Follows, peer_at-Indexed,
  schedule_reestablishment-Indexed,
}
use sctp_sandbox_c.Peers.Find.{find_peer-InTable}
use sctp_sandbox_c.Udp.{
  send_socket_udp_to_remote, schedule_ping, find_peer_by_remote, handle_comm_lost_udp,
  schedule_comm_lost, handle_comm_up_udp, handle_graceful_shutdown_udp, reset_tasks,
  connect_each_udp, connect_socket_udp, refresh_peer, delivered_udp, handle_message_udp,
  keep_alive_msg, keep_alive_ack_msg,
}

module _ (env : Env) where
  pub find_peer_by_remote-InTable :
      (s : Socket) (remote : IpSocket) → InTable s (find_peer_by_remote env s remote)
  unfolding find_peer_by_remote
  find_peer_by_remote-InTable s remote = find_peer-InTable s _

  pub send_socket_udp_to_remote-Indexed :
      (s : Socket) (msg : List ℕ) (remote : IpSocket)
      → Ensures Indexed Any (send_socket_udp_to_remote env s msg remote)
  unfolding send_socket_udp_to_remote
  send_socket_udp_to_remote-Indexed s msg remote =
      Ensures-bind _ _ (ip_socket_to_sockaddr_storage-Quiet env Indexed unset-Indexed remote)
        λ a _. Ensures-bind _ _ (Ensures-checked env _ _) λ _ _. Ensures-pure tt tt

  schedule_ping-Indexed : (remote : IpSocket) → Ensures Indexed Any (schedule_ping env remote)
  unfolding schedule_ping
  schedule_ping-Indexed remote = Ensures-bind _ _ (Ensures-invoke env _) λ r _. Ensures-pure _ tt

  schedule_comm_lost-Indexed :
      (remote : IpSocket) → Ensures Indexed Any (schedule_comm_lost env remote)
  unfolding schedule_comm_lost
  schedule_comm_lost-Indexed remote =
      Ensures-bind _ _ (Ensures-invoke env _) λ r _. Ensures-pure _ tt

  pub handle_comm_lost_udp-Follows :
      (s : Socket) (remote : IpSocket)
      → IsValid s
      → Ensures Indexed (Follows s) (handle_comm_lost_udp env s remote)
  unfolding handle_comm_lost_udp
  handle_comm_lost_udp-Follows s remote v =
      Ensures-bind _ _ (schedule_reestablishment-Indexed env remote)
        λ _ _. remove_peer-Follows env s _ v (find_peer_by_remote-InTable s remote)

  handle_comm_up_udp-Follows :
      (s : Socket) (remote : IpSocket)
      → IsValid s
      → Ensures Indexed (Follows s) (handle_comm_up_udp env s remote)
  unfolding handle_comm_up_udp
  handle_comm_up_udp-Follows s remote v = Ensures-room s _ v λ room.
      Ensures-bind _ _ (schedule_ping-Indexed remote) λ p _.
        Ensures-bind _ _ (schedule_comm_lost-Indexed remote) λ c _. add_peer-Follows s _ v room

  handle_graceful_shutdown_udp-Follows :
      (s : Socket) (remote : IpSocket)
      → IsValid s
      → Ensures Indexed (Follows s) (handle_graceful_shutdown_udp env s remote)
  unfolding handle_graceful_shutdown_udp
  handle_graceful_shutdown_udp-Follows s remote v =
      remove_peer-Follows env s _ v (find_peer_by_remote-InTable s remote)

  reset_tasks-Indexed : (p : Peer) → Ensures Indexed Any (reset_tasks env p)
  unfolding reset_tasks
  reset_tasks-Indexed p =
      Ensures-bind _ _ (Ensures-invoke env _)
        λ _ _. Ensures-bind _ _ (Ensures-invoke env _) λ _ _. Ensures-pure tt tt

  connect_each_udp-Follows :
      (s : Socket) (remotes : List IpSocket)
      → IsValid s
      → Ensures Indexed (Follows s) (connect_each_udp env s remotes)
  unfolding connect_each_udp
  connect_each_udp-Follows s [] v = Ensures-unchanged s v
  connect_each_udp-Follows s (remote ∷ rest) v =
      Ensures-then s _ _ (handle_comm_up_udp-Follows s remote v)
        λ t v'. connect_each_udp-Follows t rest v'

  pub connect_socket_udp-Follows :
      (s : Socket) (remotes : IpSockets)
      → IsValid s
      → Ensures Indexed (Follows s) (connect_socket_udp env s remotes)
  unfolding connect_socket_udp
  connect_socket_udp-Follows s remotes v = connect_each_udp-Follows s (listed remotes) v

  refresh_peer-Follows :
      (s : Socket) (remote : IpSocket)
      → IsValid s
      → Ensures Indexed (Follows s) (refresh_peer env s remote)
  unfolding refresh_peer
  refresh_peer-Follows s remote v = elim (Option-cases (find_peer_by_remote env s remote)) [
    | inl e ↦ rw (e, refresh_peer) (handle_comm_up_udp-Follows s remote v)
    | inr (i, e) ↦
        rw (e, refresh_peer)
          (Ensures-bind _ _ (peer_at-Indexed s i (rw e at (find_peer_by_remote-InTable s remote)))
            λ p _. Ensures-bind _ _ (reset_tasks-Indexed p) λ _ _. Ensures-unchanged s v)
  ]

  delivered_udp-Follows :
      (s : Socket) (remote : IpSocket)
      → IsValid s
      → Ensures Indexed (Follows s) (delivered_udp env s remote)
  unfolding delivered_udp
  delivered_udp-Follows s remote v =
      Ensures-if (env.equals (c_string s.msg_buffer) quit_msg) _ _
        (λ _. handle_graceful_shutdown_udp-Follows s remote v)
        λ _.
          Ensures-bind _ _
            (Ensures-if (env.equals (c_string s.msg_buffer) keep_alive_msg) _ _
              (λ _. send_socket_udp_to_remote-Indexed s keep_alive_ack_msg remote)
              λ _. Ensures-pure tt tt)
            λ _ _. refresh_peer-Follows s remote v

  pub handle_message_udp-Follows :
      (s : Socket) (fd : ℤ) → IsValid s → Ensures Indexed (Follows s) (handle_message_udp env s fd)
  unfolding handle_message_udp
  handle_message_udp-Follows s fd v = Ensures-bind _ _ (Ensures-checked env _ _) λ r _.
      Ensures-then s _ _ (terminate_message-Follows s r v) λ t v'.
        Ensures-bind _ _ (sockaddr_storage_to_ip_socket-Quiet env Indexed unset-Indexed r.from)
          λ remote _. delivered_udp-Follows t remote v'
