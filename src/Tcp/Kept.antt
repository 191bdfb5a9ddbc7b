-- ===== src/Tcp/Kept.antt =====
-- SocketTcp.c: a handler that is given a descriptor of the table finds its entry, and leaves the
-- entries of the other descriptors.
use sctp_sandbox_c.Base.{◌≡◌, refl, ◌∙◌, List, [], ◌∷◌, ℤ, ◌==ℤ◌, ==ℤ_iff, ◌==◌, leb, ◌⊎◌, inl, inr}
use sctp_sandbox_c.Errors.{Check, failed}
use sctp_sandbox_c.Os.{Env, IpSocket, Reply}
use sctp_sandbox_c.IpSocket.{IpSockets, listed}
use sctp_sandbox_c.Os.Ensures.{
  Ensures, Any, Ensures-pure, Ensures-bind, Ensures-if, Ensures-invoke, Ensures-check,
  Ensures-weaken,
}
use sctp_sandbox_c.Bind.Quiet.{
  configure_socket-Quiet, bind_socket-Quiet, connect_single_socket-Quiet, log_paddrs_tcp-Quiet,
  sockaddr_storage_to_ip_socket-Quiet,
}
use sctp_sandbox_c.Peers.{Socket, peers_max_count, first_byte, find_peer_by_fd, peer_through}
use sctp_sandbox_c.Peers.Present.{
  NotNull, unset-NotNull, Present, Found, Present-Found, Kept, Kept-refl, add_peer-Kept,
  peer_through-NotNull, remove_peer-Kept, schedule_reestablishment-NotNull,
  terminate_message-SamePeers, SamePeers-Kept,
}
use sctp_sandbox_c.Tcp.{
  create_connect_socket, connect_one, connect_each_tcp, connect_socket_tcp, handle_comm_up_tcp,
  handle_comm_lost_tcp, handle_graceful_shutdown_tcp, received_tcp, handle_message_tcp,
}

-- The listening descriptor, or one of the table.
abbrev pub Known : Socket → ℤ → Type 0
Known s fd = (fd ≡ s.fd) ⊎ Present s fd

module _ (env : Env) where
  pub handle_comm_up_tcp-Kept :
      (s : Socket) (fd : ℤ) → Ensures NotNull (Kept fd s) (handle_comm_up_tcp env s fd)
  unfolding handle_comm_up_tcp
  handle_comm_up_tcp-Kept s fd =
      Ensures-if (leb peers_max_count s.peer_count) _ _ (λ _. Ensures-pure s (Kept-refl fd s))
        λ _. Ensures-bind _ _ (Ensures-invoke env _) λ r _.
          Ensures-bind _ _ (Ensures-check env _ _ _) λ _ _.
            Ensures-bind _ _ (sockaddr_storage_to_ip_socket-Quiet env NotNull unset-NotNull r.from)
              λ remote _. add_peer-Kept s _ fd

  through :
      (s : Socket) (fd : ℤ)
      → Found s fd
      → Ensures NotNull Any (peer_through s (find_peer_by_fd s fd))
  through s fd (i, p, e, there, mine) =
      rw e (Ensures-weaken _ (peer_through-NotNull env s i) λ _ _. tt)

  pub handle_comm_lost_tcp-Kept :
      (s : Socket) (fd : ℤ)
      → Present s fd
      → Ensures NotNull (Kept fd s) (handle_comm_lost_tcp env s fd)
  unfolding handle_comm_lost_tcp
  handle_comm_lost_tcp-Kept s fd present =
      let found = Present-Found s fd present in
      Ensures-bind _ _ (through s fd found) λ ip _.
        Ensures-bind _ _
          (Ensures-if ip.1.should_reestablish _ _
            (λ _. schedule_reestablishment-NotNull env ip.1.remote) λ _. Ensures-pure tt tt)
          λ _ _. remove_peer-Kept env s fd found

  pub handle_graceful_shutdown_tcp-Kept :
      (s : Socket) (fd : ℤ)
      → Present s fd
      → Ensures NotNull (Kept fd s) (handle_graceful_shutdown_tcp env s fd)
  unfolding handle_graceful_shutdown_tcp
  handle_graceful_shutdown_tcp-Kept s fd present =
      let found = Present-Found s fd present in
      Ensures-bind _ _ (through s fd found) λ _ _. remove_peer-Kept env s fd found

  received_tcp-Kept :
      (s : Socket) (fd : ℤ) (r : Reply)
      → Present s fd
      → Ensures NotNull (Kept fd s) (received_tcp env s fd r)
  unfolding received_tcp
  received_tcp-Kept s fd r present =
      Ensures-if (failed Check.receive r.result r.errno) _ _
        (λ _. handle_comm_lost_tcp-Kept s fd present)
        λ _. Ensures-bind _ _ (terminate_message-SamePeers s r) λ t same.
          Ensures-weaken _
            (Ensures-if (first_byte t.msg_buffer == 0) _ _
              (λ _. handle_graceful_shutdown_tcp-Kept t fd (same.2 fd present))
              λ _.
                Ensures-bind _ _ (log_paddrs_tcp-Quiet env NotNull unset-NotNull fd)
                  λ _ _. Ensures-pure t (Kept-refl fd t))
            λ u k. SamePeers-Kept fd s t u same k

  -- On a known descriptor, no message makes the handler go through a NULL pointer.
  pub handle_message_tcp-Kept :
      (s : Socket) (fd : ℤ) → Known s fd → Ensures NotNull (Kept fd s) (handle_message_tcp env s fd)
  unfolding handle_message_tcp
  handle_message_tcp-Kept s fd (inl own) =
      rw ((==ℤ_iff fd s.fd).1 own, handle_message_tcp) (handle_comm_up_tcp-Kept s fd)
  handle_message_tcp-Kept s fd (inr present) =
      Ensures-if (fd ==ℤ s.fd) _ _ (λ _. handle_comm_up_tcp-Kept s fd)
        λ _. Ensures-bind _ _ (Ensures-invoke env _) λ r _. received_tcp-Kept s fd r present

  create_connect_socket-NotNull : (s : Socket) → Ensures NotNull Any (create_connect_socket env s)
  unfolding create_connect_socket
  create_connect_socket-NotNull s = Ensures-bind _ _ (Ensures-invoke env _) λ r _.
      Ensures-bind _ _ (Ensures-check env _ _ _) λ _ _.
        Ensures-bind _ _ (configure_socket-Quiet env NotNull unset-NotNull s r.result) λ _ _.
          Ensures-bind _ _ (bind_socket-Quiet env NotNull unset-NotNull s r.result _)
            λ _ _. Ensures-pure _ tt

  -- The socket has the same protocol.
  abbrev SameProtocol : Socket → Socket → Type 0
  SameProtocol s t = t.protocol ≡ s.protocol

  connect_one-NotNull :
      (s : Socket) (remote : IpSocket) → Ensures NotNull (SameProtocol s) (connect_one env s remote)
  unfolding connect_one
  connect_one-NotNull s remote = Ensures-bind _ _ (create_connect_socket-NotNull s) λ fd _.
      Ensures-bind _ _ (connect_single_socket-Quiet env NotNull unset-NotNull fd remote)
        λ _ _. Ensures-weaken _ (add_peer-Kept s _ fd) λ t k. k.same_protocol

  connect_each_tcp-NotNull :
      (s : Socket) (remotes : List IpSocket)
      → Ensures NotNull (SameProtocol s) (connect_each_tcp env s remotes)
  unfolding connect_each_tcp
  connect_each_tcp-NotNull s [] = Ensures-pure s refl
  connect_each_tcp-NotNull s (remote ∷ rest) =
      Ensures-if (leb peers_max_count s.peer_count) _ _ (λ _. Ensures-pure s refl)
        λ _.
          Ensures-bind _ _ (connect_one-NotNull s remote)
            λ t same. Ensures-weaken _ (connect_each_tcp-NotNull t rest) λ u same'. same' ∙ same

  pub connect_socket_tcp-NotNull :
      (s : Socket) (remotes : IpSockets)
      → Ensures NotNull (λ t. t.protocol ≡ s.protocol) (connect_socket_tcp env s remotes)
  unfolding connect_socket_tcp
  connect_socket_tcp-NotNull s remotes = connect_each_tcp-NotNull s (listed remotes)
