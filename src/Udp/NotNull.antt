-- ===== src/Udp/NotNull.antt =====
-- SocketUdp.c: refreshing a peer and sending, as to NULL pointers.
use sctp_sandbox_c.Base.{ℕ, List, Option-cases, inl, inr, arith, leb}
use sctp_sandbox_c.Os.{Env, IpSocket}
use sctp_sandbox_c.Os.Ensures.{
  Ensures, Any, Ensures-pure, Ensures-bind, Ensures-if, Ensures-invoke, Ensures-checked,
  Ensures-weaken,
}
use sctp_sandbox_c.Bind.Quiet.{ip_socket_to_sockaddr_storage-Quiet}
use sctp_sandbox_c.Peers.{Peer, Socket, peers_max_count, peer_at}
use sctp_sandbox_c.Peers.Present.{NotNull, unset-NotNull, add_peer-Kept}
use sctp_sandbox_c.Udp.{
  send_socket_udp_to_remote, schedule_ping, find_peer_by_remote, schedule_comm_lost,
  handle_comm_up_udp, reset_tasks, refresh_peer,
}

module _ (env : Env) where
  comm_up-NotNull :
      (s : Socket) (remote : IpSocket) → Ensures NotNull Any (handle_comm_up_udp env s remote)
  unfolding handle_comm_up_udp schedule_ping schedule_comm_lost
  comm_up-NotNull s remote =
      Ensures-if (leb peers_max_count s.peer_count) _ _ (λ _. Ensures-pure s tt)
        λ _.
          Ensures-bind _ _ (Ensures-bind _ _ (Ensures-invoke env _) λ r _. Ensures-pure _ tt) λ p _.
            Ensures-bind _ _ (Ensures-bind _ _ (Ensures-invoke env _) λ r _. Ensures-pure _ tt)
              λ c _. Ensures-weaken _ (add_peer-Kept s _ s.fd) λ _ _. tt

  peer_at-NotNull : (s : Socket) (i : ℕ) → Ensures NotNull Any (peer_at s i)
  unfolding peer_at
  peer_at-NotNull s i = record { holds = λ h. ground arith }

  pub refresh_peer-NotNull :
      (s : Socket) (remote : IpSocket) → Ensures NotNull Any (refresh_peer env s remote)
  unfolding refresh_peer reset_tasks
  refresh_peer-NotNull s remote = elim (Option-cases (find_peer_by_remote env s remote)) [
    | inl e ↦ rw (e, refresh_peer) (comm_up-NotNull s remote)
    | inr (i, e) ↦
        rw (e, refresh_peer)
          (Ensures-bind _ _ (peer_at-NotNull s i)
            λ p _. Ensures-bind _ _ (resets p) λ _ _. Ensures-pure s tt)
  ]
    where
      resets : (p : Peer) → Ensures NotNull Any (reset_tasks env p)
      resets p =
          Ensures-bind _ _ (Ensures-invoke env _)
            λ _ _. Ensures-bind _ _ (Ensures-invoke env _) λ _ _. Ensures-pure tt tt

  pub send-NotNull :
      (s : Socket) (msg : List ℕ) (remote : IpSocket)
      → Ensures NotNull Any (send_socket_udp_to_remote env s msg remote)
  unfolding send_socket_udp_to_remote
  send-NotNull s msg remote =
      Ensures-bind _ _ (ip_socket_to_sockaddr_storage-Quiet env NotNull unset-NotNull remote)
        λ a _. Ensures-bind _ _ (Ensures-checked env _ _) λ _ _. Ensures-pure tt tt
